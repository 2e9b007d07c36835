-- ===== src/Curriculum/Places.antt =====
-- The check of the prerequisites in `load_curriculum` of learning/server/curriculum.py: what it lets
-- through comes before its lesson.
use flight_test_lab.Prelude.{
  ℕ, ◌<◌, String, ◌≡◌, refl, sym, ◌∙◌, ◌⊎◌, inl, inr, Bool, true, false, not, Option, none, some,
  List, [], ◌∷◌, arith, All, ltb, str_eq, eq_iff, eq_refl,
}
use mathlib.Core.Bool.{true≢false}
use flight_test_lab.Dict.{Dict, has}
use flight_test_lab.Result.{ok, raise_if, raise_if-eq-ok, >>=-eq-ok}
use flight_test_lab.Curriculum.{Lesson}
use flight_test_lab.Curriculum.Values.{
  CurriculumError, unknown_prerequisite, own_prerequisite, later_prerequisite,
}
use flight_test_lab.Curriculum.Load.{
  next_place, position, require_place, check_prerequisite, check_prerequisites, check_lessons,
}

-- Both are lessons of the program, and the first comes before the second.
pub record Precedes (ordered : List String) (p id : String) : Type 0 where
  pub place : ℕ
  pub own : ℕ
  pub known : position p ordered ≡ some place
  pub own_known : position id ordered ≡ some own
  pub before : place < own

abbrev place_of : Option ℕ → ℕ
place_of none = 0
place_of (some n) = n

-- The place of a lesson in the program.
abbrev pub rank_in : List String → String → ℕ
rank_in ordered id = place_of (position id ordered)

raise_if-ok :
    (test : Bool) (e : CurriculumError) {u : Unit {0}} → raise_if test e ≡ ok u → test ≡ false
raise_if-ok true e h = cc
raise_if-ok false e h = refl

require_place-ok : (o : Option ℕ) {n : ℕ} → require_place o ≡ ok n → o ≡ some n
require_place-ok none h = cc
require_place-ok (some m) h = ground arith

next_place-same :
    (x y : Bool) (o q : Option ℕ) {n : ℕ}
    → next_place x o ≡ some n
    → next_place y q ≡ some n
    → ((m : ℕ) × (o ≡ some m) × (q ≡ some m)) ⊎ ((x ≡ true) × (y ≡ true))
next_place-same x y (some a) (some b) h k = inl (a, refl, ground arith)
next_place-same x true (some a) none h k = ground arith
next_place-same x false (some a) none h k = cc
next_place-same true y none (some b) h k = ground arith
next_place-same false y none (some b) h k = cc
next_place-same true true none none h k = inr (refl, refl)
next_place-same true false none none h k = cc
next_place-same false y none none h k = cc

-- No two ids have one place.
position-injective :
    (a b : String) (ids : List String) {n : ℕ}
    → position a ids ≡ some n
    → position b ids ≡ some n
    → a ≡ b
unfolding position
position-injective a b [] h k = cc
position-injective a b (i ∷ ids) h k =
    elim (next_place-same (str_eq i a) (str_eq i b) (position a ids) (position b ids) h k) [
      | inl (m, later_a, later_b) ↦ position-injective a b ids later_a later_b
      | inr (here_a, here_b) ↦ sym ((eq_iff i a).0 here_a) ∙ (eq_iff i b).0 here_b
    ]

check_prerequisite-before :
    (lessons : Dict Lesson) (ordered : List String) (id p : String) {u : Unit {0}}
    → check_prerequisite lessons ordered id p ≡ ok u
    → Precedes ordered p id
unfolding check_prerequisite
check_prerequisite-before lessons ordered id p {u} h =
    let (known, h₁) =
      raise_if-eq-ok (not (has p lessons)) (unknown_prerequisite id p) _ {b = u} h in
    let (other, h₂) = raise_if-eq-ok (str_eq p id) (own_prerequisite id p) _ h₁ in
    let (before, read_p, h₃) = >>=-eq-ok (require_place (position p ordered)) _ h₂ in
    let (place, read_id, h₄) = >>=-eq-ok (require_place (position id ordered)) _ h₃ in
    let at_p = require_place-ok _ read_p in
    let at_id = require_place-ok _ read_id in
    let not_later = raise_if-ok (ltb place before) (later_prerequisite id p) h₄ in
    let apart : before ≡ place → ⊥ = λ same.
      absurd (
        true≢false
          (cc (eq_refl id, position-injective p id ordered at_p (rw same at_id), other))) in
    record {
      place = before;
      own = place;
      known = at_p;
      own_known = at_id;
      before = ground (arith, apart);
    }

pub Precedes-rank :
    (ordered : List String) (p id : String)
    → Precedes ordered p id
    → rank_in ordered p < rank_in ordered id
Precedes-rank ordered p id h = rw (h.known, h.own_known) h.before

abbrev pub IsAfter : List String → Lesson → Type 0
IsAfter ordered l = All (λ p. Precedes ordered p l.id) l.prerequisites

check_prerequisites-before :
    (lessons : Dict Lesson) (ordered : List String) (id : String) (ps : List String) {u : Unit {0}}
    → check_prerequisites lessons ordered id ps ≡ ok u
    → All (λ p. Precedes ordered p id) ps
unfolding check_prerequisites
check_prerequisites-before lessons ordered id [] h = tt
check_prerequisites-before lessons ordered id (p ∷ ps) h =
    let (u, first, rest) = >>=-eq-ok (check_prerequisite lessons ordered id p) _ h in
    (
      check_prerequisite-before lessons ordered id p first,
      check_prerequisites-before lessons ordered id ps rest,
    )

pub check_lessons-IsAfter :
    (lessons : Dict Lesson) (ordered : List String) (ls : List Lesson) {u : Unit {0}}
    → check_lessons lessons ordered ls ≡ ok u
    → All (IsAfter ordered) ls
unfolding check_lessons
check_lessons-IsAfter lessons ordered [] h = tt
check_lessons-IsAfter lessons ordered (l ∷ ls) h =
    let (u, first, rest) =
      >>=-eq-ok (check_prerequisites lessons ordered l.id l.prerequisites) _ h in
    (
      check_prerequisites-before lessons ordered l.id l.prerequisites first,
      check_lessons-IsAfter lessons ordered ls rest,
    )
