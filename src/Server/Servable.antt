-- ===== src/Server/Servable.antt =====
-- What learning/server/app.py relies on in a lesson, and that `load_curriculum` of
-- learning/server/curriculum.py lets no other lesson through.
use flight_test_lab.Prelude.{
  contains, ap, ◌&&◌, ◌≡◌, ◌+◌, ℕ, String, Bool, true, false, not, ◌||◌, List, [], ◌∷◌, All, arith,
  str_eq, eq_iff, Bool-cases, inl, inr, Option-cases, Option, none, some, is_empty,
}
use flight_test_lab.Dict.{Dict, AllValues}
use flight_test_lab.Result
use flight_test_lab.Result.{Result, ok, err, raise_if-eq-ok, >>=-eq-ok, ok-injective}
use flight_test_lab.Json.{truthy, Json, Items, Fields, member, get, str, arr, or_null}
use flight_test_lab.Progress.Store.Safety.{IsOk}
use flight_test_lab.Curriculum.{Lesson, Curriculum, has_type, text, is_text}
use flight_test_lab.Curriculum.Values.{
  listed_strings, no_reason, no_blocks, bad_blocks, bad_hints, require_objects, unknown_block_type,
  missing_block_id, duplicate_block, Site, require_str, require_str_list, as_int, get_list, among,
  strings,
}
use flight_test_lab.Curriculum.Blocks.{
  check_block, validate_blocks, require_keys, required_keys, has_member, where_, check_explain,
  check_question, check_verify, block_types,
}
use flight_test_lab.Curriculum.Schema.{
  parse_lesson, require_minutes, require_status, str_or_empty, offer, check_hints, equals_count,
  is_string,
}
use flight_test_lab.Curriculum.Files.{Files}
use flight_test_lab.Curriculum.Load.{load_curriculum}
use flight_test_lab.Curriculum.Gathering.{IsParsed}
use flight_test_lab.Curriculum.Places.{rank_in}
use flight_test_lab.Progress.Completion.Rule.{IsBackward}
use flight_test_lab.Progress.Completion.Loaded.{IsPlaced, load_curriculum-IsBackward}
use flight_test_lab.Curriculum.Order.{load_curriculum-IsOrdered}
use flight_test_lab.Prelude.Int.{ℤ}
use flight_test_lab.Server.Views.{require, found}
use mathlib.Core.Path.{subst}
use flight_test_lab.Server.Steps.{keywords_of}

-- A hint has a level and a text.
pub record IsHint (h : Fields) : Type 0 where
  pub level : IsOk (require "level" h)
  pub text_ : IsOk (require "text" h)

-- What a block of each type that is answered has.
pub record IsBlock (b : Fields) : Type 0 where
  pub asks : (has_type "quiz" b || has_type "predict" b) ≡ true → IsOk (require "answer_index" b)
  pub listed : has_type "explain" b ≡ true → IsOk (Result.◌>>=◌ (require "keywords" b) keywords_of)
  pub sample : has_type "explain" b ≡ true → IsOk (require "sample_answer" b)

pub record IsServable (l : Lesson) : Type 0 where
  pub hints : All IsHint l.hints
  pub blocks : All IsBlock l.blocks

found-IsOk : (o : Option Json) → (elim o [ none ↦ false | some v ↦ true ]) ≡ true → IsOk (found o)
found-IsOk none h = cc
found-IsOk (some v) h = tt

member-IsOk : (k : String) (b : Fields) → has_member k b ≡ true → IsOk (require k b)
unfolding require
member-IsOk k b h = found-IsOk (member k b) h

-- The keys that were required are there.
abbrev HasKeys : Fields → List String → Type 0
HasKeys b ks = All (λ k. IsOk (require k b)) ks

require_keys-HasKeys :
    (b : Fields) (id : String) (ks : List String) {u : Unit {0}}
    → require_keys b id ks ≡ ok u
    → HasKeys b ks
unfolding require_keys
require_keys-HasKeys b id [] h = tt
require_keys-HasKeys b id (k ∷ ks) h =
    let (there, rest) = raise_if-eq-ok (not (has_member k b)) _ _ h in
    (member-IsOk k b (ground (arith, there)), require_keys-HasKeys b id ks rest)

level-IsOk : (n : ℕ) (o : Option Json) → equals_count n (or_null o) ≡ true → IsOk (found o)
level-IsOk n none h = cc
level-IsOk n (some v) h = tt

text-IsOk : (o : Option Json) → is_string (or_null o) ≡ true → IsOk (found o)
text-IsOk none h = cc
text-IsOk (some v) h = tt

both_hold : (a b : Bool) → (not a || not b) ≡ false → (a ≡ true) × (b ≡ true)
both_hold a b h = ground (arith, h)

level_text-IsHint :
    (n : ℕ) (h : Fields)
    → (not (equals_count n (get "level" h)) || not (is_string (get "text" h))) ≡ false
    → IsHint h
unfolding require
level_text-IsHint n h good =
    let (level, words) =
      both_hold (equals_count n (get "level" h)) (is_string (get "text" h)) good in
    record {
      level = level-IsOk n (member "level" h) level;
      text_ = text-IsOk (member "text" h) words;
    }

check_hints-IsHint :
    (n : ℕ) (hs : List Fields) {u : Unit {0}} → check_hints n hs ≡ ok u → All IsHint hs
unfolding check_hints
check_hints-IsHint n [] h = tt
check_hints-IsHint n (x ∷ xs) h =
    let (good, rest) = raise_if-eq-ok _ _ _ h in
    (level_text-IsHint (n + 1) x good, check_hints-IsHint (n + 1) xs rest)

asks-IsOk :
    (b : Fields) (kind : Json)
    → (is_text "quiz" kind || is_text "predict" kind) ≡ true
    → HasKeys b (required_keys (text kind))
    → IsOk (require "answer_index" b)
unfolding required_keys
asks-IsOk b (str t) h keys = elim (Bool-cases (str_eq t "quiz")) [
  | inl quiz ↦
      let same : t ≡ "quiz" = (eq_iff t "quiz").0 quiz in
      let keys' : HasKeys b (required_keys "quiz") =
        subst (λ k. HasKeys b (required_keys k)) same keys in
      keys'.1.1.0
  | inr other ↦
      let same : t ≡ "predict" = (eq_iff t "predict").0 (rw other at h) in
      let keys' : HasKeys b (required_keys "predict") =
        subst (λ k. HasKeys b (required_keys k)) same keys in
      keys'.1.1.0
]
asks-IsOk b _ h keys = cc

explain-HasKeys :
    (b : Fields) (kind : Json)
    → is_text "explain" kind ≡ true
    → HasKeys b (required_keys (text kind))
    → IsOk (require "keywords" b) × IsOk (require "sample_answer" b)
unfolding required_keys
explain-HasKeys b (str t) h keys =
    let same : t ≡ "explain" = (eq_iff t "explain").0 h in
    let keys' : HasKeys b (required_keys "explain") =
      subst (λ k. HasKeys b (required_keys k)) same keys in
    (keys'.1.0, keys'.1.1.0)
explain-HasKeys b _ h keys = cc

listed-IsOk :
    (o : Option Json) {ks : List String}
    → IsOk (found o)
    → listed_strings "keywords" (elim o [ none ↦ arr Items.nil | some v ↦ v ]) ≡ ok ks
    → IsOk (Result.◌>>=◌ (found o) keywords_of)
listed-IsOk none there h = absurd there
listed-IsOk (some (arr vs)) there h = elim (Option-cases (strings vs)) [
  | inl gone ↦ cc (rw gone at h)
  | inr (ss, listed) ↦ rw (listed, IsOk) tt
]
listed-IsOk (some v) there h = cc

keywords_of-IsOk :
    (b : Fields) {ks : List String}
    → IsOk (require "keywords" b)
    → require_str_list b "keywords" ≡ ok ks
    → IsOk (Result.◌>>=◌ (require "keywords" b) keywords_of)
unfolding require require_str_list
keywords_of-IsOk b there h = listed-IsOk (member "keywords" b) there h

check_block-IsBlock :
    (site : Site) (seen : List String) (b : Fields) {id : String}
    → check_block site seen b ≡ ok id
    → IsBlock b
unfolding check_block check_explain
check_block-IsBlock site seen b {id} h =
    let (known, e₁, h₁) = >>=-eq-ok (among block_types (get "type" b)) _ {b = id} h in
    let (e₂, h₂) = raise_if-eq-ok (not known) unknown_block_type _ h₁ in
    let (e₃, h₃) = raise_if-eq-ok (str_eq (text (get "id" b)) "") missing_block_id _ h₂ in
    let (e₄, h₄) =
      raise_if-eq-ok (contains (text (get "id" b)) seen) (duplicate_block (text (get "id" b))) _
        h₃ in
    let (u₅, e₅, h₅) =
      >>=-eq-ok (require_keys b (text (get "id" b)) (required_keys (text (get "type" b)))) _ h₄ in
    let (u₆, e₆, h₆) =
      >>=-eq-ok (where_ (is_text "verify" (get "type" b)) (check_verify site b (text (get "id" b))))
        _ h₅ in
    let (u₇, e₇, h₇) =
      >>=-eq-ok
        (where_ (is_text "quiz" (get "type" b) || is_text "predict" (get "type" b))
          (check_question b (text (get "id" b))))
        _ h₆ in
    let (u₈, e₈, h₈) =
      >>=-eq-ok (where_ (is_text "explain" (get "type" b)) (check_explain b (text (get "id" b)))) _
        h₇ in
    let keys = require_keys-HasKeys b _ _ e₅ in
    record {
      asks = λ kind. asks-IsOk b (get "type" b) kind keys;
      listed = λ kind.
          let checked : check_explain b (text (get "id" b)) ≡ ok u₈ = rw kind at e₈ in
          let (ks, listed, rest) = >>=-eq-ok (require_str_list b "keywords") _ checked in
          keywords_of-IsOk b (explain-HasKeys b (get "type" b) kind keys).0 listed;
      sample = λ kind. (explain-HasKeys b (get "type" b) kind keys).1;
    }

validate_blocks-IsBlock :
    (site : Site) (seen : List String) (bs : List Fields) {u : Unit {0}}
    → validate_blocks site seen bs ≡ ok u
    → All IsBlock bs
unfolding validate_blocks
validate_blocks-IsBlock site seen [] h = tt
validate_blocks-IsBlock site seen (b ∷ bs) h =
    let (id, first, rest) = >>=-eq-ok (check_block site seen b) _ h in
    (check_block-IsBlock site seen b first, validate_blocks-IsBlock site (id ∷ seen) bs rest)

parse_lesson-IsServable :
    (site : Site) (day : ℤ) (data_ : Fields) {l : Lesson}
    → parse_lesson site day data_ ≡ ok l
    → IsServable l
unfolding parse_lesson
parse_lesson-IsServable site day data_ {l} h =
    let (id, e₁, h₁) = >>=-eq-ok (require_str data_ "id") _ {b = l} h in
    let (title, e₂, h₂) = >>=-eq-ok (require_str data_ "title") _ h₁ in
    let (objective, e₃, h₃) = >>=-eq-ok (require_str data_ "objective") _ h₂ in
    let (minutes, e₄, h₄) =
      >>=-eq-ok (require_minutes (as_int (get "estimated_minutes" data_))) _ h₃ in
    let (status, e₅, h₅) = >>=-eq-ok (require_status (member "status" data_)) _ h₄ in
    let (e₆, h₆) =
      raise_if-eq-ok
        (str_eq status "unavailable" && str_eq (str_or_empty site "unavailable_reason" data_) "")
        no_reason _ h₅ in
    let (requires, e₇, h₇) = >>=-eq-ok (require_str_list data_ "requires") _ h₆ in
    let (offered, e₈, h₈) =
      >>=-eq-ok (offer site (status, str_or_empty site "unavailable_reason" data_) requires) _ h₇ in
    let (e₉, h₉) =
      raise_if-eq-ok (str_eq offered.0 "available" && not (truthy (get_list "blocks" data_)))
        no_blocks _ h₈ in
    let (blocks, e₁₀, h₁₀) =
      >>=-eq-ok (require_objects bad_blocks (get_list "blocks" data_)) _ h₉ in
    let (u, checked, h₁₁) = >>=-eq-ok (validate_blocks site [] blocks) _ h₁₀ in
    let (hints, e₁₂, h₁₂) = >>=-eq-ok (require_objects bad_hints (get_list "hints" data_)) _ h₁₁ in
    let (v, hinted, h₁₃) = >>=-eq-ok (check_hints 0 hints) _ h₁₂ in
    let (concepts, e₁₄, h₁₄) = >>=-eq-ok (require_str_list data_ "concepts") _ h₁₃ in
    let (prerequisites, e₁₅, h₁₅) = >>=-eq-ok (require_str_list data_ "prerequisites") _ h₁₄ in
    let (source_files, e₁₆, h₁₆) = >>=-eq-ok (require_str_list data_ "source_files") _ h₁₅ in
    let (requirements, e₁₇, h₁₇) = >>=-eq-ok (require_str_list data_ "requirements") _ h₁₆ in
    let same = ok-injective h₁₇ in
    let same_hints : hints ≡ l.hints = ap (λ (x : Lesson). x.hints) same in
    let same_blocks : blocks ≡ l.blocks = ap (λ (x : Lesson). x.blocks) same in
    record {
      hints = subst (All IsHint) same_hints (check_hints-IsHint 0 hints hinted);
      blocks = subst (All IsBlock) same_blocks (validate_blocks-IsBlock site [] blocks checked);
    }

parsed-IsServable :
    (site : Site) (d : Dict Lesson) → AllValues (IsParsed site) d → AllValues IsServable d
parsed-IsServable site [] h = tt
parsed-IsServable site ((k, l) ∷ d) ((day, data_, parsed), rest) =
    (parse_lesson-IsServable site day data_ parsed, parsed-IsServable site d rest)

-- What the handlers of the server rely on in a curriculum.
pub record IsUsable (c : Curriculum) : Type 0 where
  pub backward : IsBackward (rank_in c.ordered_lesson_ids) c.lessons
  pub placed : IsPlaced c.ordered_lesson_ids c.lessons
  pub lessons : AllValues IsServable c.lessons
  pub some_lesson : is_empty c.ordered_lesson_ids ≡ false

-- In a curriculum that the loader accepts, every hint has a level and a text, every quiz and predict
-- block an answer, every explain block a list of keywords and a sample answer; the prerequisites are
-- lessons of the program and come before their lesson; and there is a lesson.
pub load_curriculum-IsUsable :
    (site : Site) (files : Files) {c : Curriculum} → load_curriculum site files ≡ ok c → IsUsable c
load_curriculum-IsUsable site files {c} h =
    let ordered = load_curriculum-IsOrdered site files h in
    record {
      backward = (load_curriculum-IsBackward site files h).0;
      placed = (load_curriculum-IsBackward site files h).1;
      lessons = parsed-IsServable site c.lessons ordered.parsed;
      some_lesson = ordered.some_lesson;
    }
