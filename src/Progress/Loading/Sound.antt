-- ===== src/Progress/Loading/Sound.antt =====
-- What the loader of learning/server/progress.py answers, whatever the file holds.
use flight_test_lab.Prelude.{
  String, ◌≡◌, refl, ◌∙◌, ap, true, false, Option, none, some, List, [], ◌∷◌, arith, str_eq, eq_iff,
  if◌then◌else◌, Bool-cases, Option-cases, inl, inr,
}
use flight_test_lab.Json
use flight_test_lab.Json.{Json, Fields, null, obj, end, field, get, member, or_null}
use flight_test_lab.Curriculum.Schema.{equals_count}
use flight_test_lab.Progress.Loading.{
  StateFile, missing, damaged, holds, valid_text, valid_section, set_default_member, load_sections,
  with_last, load, empty_fields, all_objects, all_valid,
}

-- The state has the version of the code, every section is an object of valid records, and the last
-- lesson is a text or null.
pub record IsLoaded (d : Fields) : Type 0 where
  pub version : equals_count 1 (get "version" d) ≡ true
  pub last : valid_text (get "last_lesson_id" d) ≡ true
  pub lessons : valid_section "lessons" (get "lessons" d) ≡ true
  pub concepts : valid_section "concepts" (get "concepts" d) ≡ true
  pub interview : valid_section "interview" (get "interview" d) ≡ true

member-put :
    (k j : String) (v : Json) (fs : Fields)
    → member j (Json.put k v fs) ≡ (if str_eq k j then some v else member j fs)
unfolding member Json.put
member-put k j v end = refl
member-put k j v (field i w fs) =
    ground (arith, eq_iff k j, eq_iff i k, eq_iff i j, member-put k j v fs)

-- A default for one key leaves the others as they are.
get-set_default_member :
    (k j : String) (v : Json) (d : Fields)
    → str_eq k j ≡ false
    → get j (set_default_member k v d) ≡ get j d
unfolding set_default_member
get-set_default_member k j v d other = elim (Option-cases (member k d)) [
  | inl new ↦ rw (new, set_default_member, get, member-put k j v d, other)
  | inr (w, old) ↦ rw (old, set_default_member)
]

load_sections-step :
    (key : String) (keys : List String) (d : Fields) {d' : Fields}
    → load_sections d (key ∷ keys) ≡ some d'
    → (valid_section key (get key (set_default_member key (obj end) d)) ≡ true)
      × (load_sections (set_default_member key (obj end) d) keys ≡ some d')
unfolding load_sections
load_sections-step key keys d h =
    elim (Bool-cases (valid_section key (get key (set_default_member key (obj end) d)))) [
      | inl valid ↦ (valid, rw valid at h)
      | inr wrong ↦ cc (rw wrong at h)
    ]

keep :
    (k j section : String) (d : Fields)
    → str_eq k j ≡ false
    → valid_section section (get j d) ≡ true
    → valid_section section (get j (set_default_member k (obj end) d)) ≡ true
keep k j section d other valid =
    ap (valid_section section) (get-set_default_member k j (obj end) d other) ∙ valid

sections-IsLoaded :
    (d : Fields) {d' : Fields}
    → load_sections d ("lessons" ∷ "concepts" ∷ "interview" ∷ []) ≡ some d'
    → equals_count 1 (get "version" d) ≡ true
    → valid_text (get "last_lesson_id" d') ≡ true
    → IsLoaded d'
unfolding load_sections
sections-IsLoaded d {d'} h version last =
    let d₁ = set_default_member "lessons" (obj end) d in
    let d₂ = set_default_member "concepts" (obj end) d₁ in
    let d₃ = set_default_member "interview" (obj end) d₂ in
    let (lessons, h₁) = load_sections-step "lessons" ("concepts" ∷ "interview" ∷ []) d h in
    let (concepts, h₂) = load_sections-step "concepts" ("interview" ∷ []) d₁ h₁ in
    let (interview, h₃) = load_sections-step "interview" [] d₂ h₂ in
    let same : d₃ ≡ d' = cc in
    let kept : get "version" d₃ ≡ get "version" d =
      get-set_default_member "interview" "version" (obj end) d₂ refl
      ∙ get-set_default_member "concepts" "version" (obj end) d₁ refl
      ∙ get-set_default_member "lessons" "version" (obj end) d refl in
    record {
      version = rw (← same) (ap (equals_count 1) kept ∙ version);
      last = last;
      lessons = rw (← same) (
          keep "interview" "lessons" "lessons" d₂ refl
            (keep "concepts" "lessons" "lessons" d₁ refl lessons));
      concepts = rw (← same) (keep "interview" "concepts" "concepts" d₂ refl concepts);
      interview = rw (← same) interview;
    }

empty_fields-IsLoaded : IsLoaded empty_fields
unfolding member all_objects all_valid
empty_fields-IsLoaded = record {
  version = refl;
  last = refl;
  lessons = refl;
  concepts = refl;
  interview = refl;
}

with_last-IsLoaded :
    (o : Option Fields)
    → ((d : Fields) → o ≡ some d → valid_text (get "last_lesson_id" d) ≡ true → IsLoaded d)
    → IsLoaded (with_last o).0
with_last-IsLoaded none h = empty_fields-IsLoaded
with_last-IsLoaded (some d) h = elim (Bool-cases (valid_text (get "last_lesson_id" d))) [
  | inl valid ↦ rw valid (h d refl valid)
  | inr wrong ↦ rw wrong empty_fields-IsLoaded
]

-- Whatever the file holds, the state that the store starts from has the version of the code, objects
-- of valid records in its three sections, and a text or null as its last lesson.
pub load-IsLoaded : (file : StateFile) → IsLoaded (load file).0
unfolding load
load-IsLoaded missing = empty_fields-IsLoaded
load-IsLoaded damaged = empty_fields-IsLoaded
load-IsLoaded (holds (obj d)) = elim (Bool-cases (equals_count 1 (get "version" d))) [
  | inl version ↦ rw version (
      with_last-IsLoaded _ λ d' e last.
        sections-IsLoaded (set_default_member "last_lesson_id" null d) e
          (ap (equals_count 1) (get-set_default_member "last_lesson_id" "version" null d refl)
            ∙ version)
          last)
  | inr other ↦ rw other empty_fields-IsLoaded
]
load-IsLoaded (holds null) = empty_fields-IsLoaded
load-IsLoaded (holds _) = empty_fields-IsLoaded
