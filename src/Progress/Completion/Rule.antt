-- ===== src/Progress/Completion/Rule.antt =====
-- The rule that the completion gates are to compute: a lesson is complete if the learner marked it so,
-- it is available, its own gates hold, and every prerequisite is complete. The walk of the code, with
-- its `seen` sets shared between siblings, gives the answers of that rule.
use flight_test_lab.Prelude.{
  ℕ, ◌+◌, ◌≤◌, ◌<◌, String, ◌≡◌, Bool, true, false, not, ◌&&◌, none, some, List, [], ◌∷◌, arith,
  str_eq, eq_iff, eq_refl, contains, all, All, length, if◌then◌else◌, Bool-cases, inl, inr,
}
use flight_test_lab.Dict
use flight_test_lab.Dict.{Dict, AllValues, AllValues-get}
use flight_test_lab.Curriculum.{Lesson, Curriculum}
use flight_test_lab.Progress.{State}
use flight_test_lab.Progress.Completion.{marked_complete}
use flight_test_lab.Progress.Completion.Gates.{gates_hold}

-- The lesson is offered, and its own record passes its gates.
unfoldable pub stands : State → Lesson → Bool
stands s lesson =
    not (str_eq lesson.status "unavailable")
    && elim (Dict.get lesson.id s.lessons) [ none ↦ false | some r ↦ gates_hold r lesson ]

-- A lesson's answer from those of its prerequisites; a lesson that the curriculum does not have is
-- complete as it is marked.
unfoldable pub rule : State → Curriculum → (String → Bool) → String → Bool
rule s c cert id = marked_complete s id && elim (Dict.get id c.lessons) [
  | none ↦ true
  | some l ↦ stands s l && all cert l.prerequisites
]

-- Every lesson stands under its own id, and its prerequisites are of lower rank.
abbrev pub IsBackward : (String → ℕ) → Dict Lesson → Type 0
IsBackward rank [] = Unit
IsBackward rank ((k, l) ∷ d) =
    (l.id ≡ k) × All (λ p. rank p < rank k) l.prerequisites × IsBackward rank d

pub IsBackward-get :
    (rank : String → ℕ) (k : String) (d : Dict Lesson) {l : Lesson}
    → IsBackward rank d
    → Dict.get k d ≡ some l
    → (l.id ≡ k) × All (λ p. rank p < rank k) l.prerequisites
unfolding Dict.get
IsBackward-get rank k [] h e = cc
IsBackward-get rank k ((j, m) ∷ d) {l} h e = elim (Bool-cases (str_eq j k)) [
  | inl here ↦
      let same : m ≡ l = cc (rw here at e) in
      let key : j ≡ k = (eq_iff j k).0 here in rw (← same, ← key) (h.0, h.1)
  | inr there ↦ IsBackward-get rank k d h.2 (rw there at e)
]

-- How many lessons of the curriculum are not in a `seen` set.
pub unseen : List String → Dict Lesson → ℕ
unseen seen [] = 0
unseen seen ((k, l) ∷ d) = (if contains k seen then 0 else 1) + unseen seen d

pub unseen-le : (seen : List String) (d : Dict Lesson) → unseen seen d ≤ length d
unfolding unseen
unseen-le seen [] = omega arith
unseen-le seen ((k, l) ∷ d) = ground (arith, unseen-le seen d)

pub unseen-cons :
    (id : String) (seen : List String) (d : Dict Lesson) → unseen (id ∷ seen) d ≤ unseen seen d
unfolding unseen
unseen-cons id seen [] = omega arith
unseen-cons id seen ((k, l) ∷ d) = ground (arith, unseen-cons id seen d)

pub unseen-new :
    (id : String) (seen : List String) (d : Dict Lesson) {l : Lesson}
    → Dict.get id d ≡ some l
    → contains id seen ≡ false
    → unseen (id ∷ seen) d < unseen seen d
unfolding unseen Dict.get
unseen-new id seen [] e new = cc
unseen-new id seen ((k, m) ∷ d) e new = elim (Bool-cases (str_eq k id)) [
  | inl here ↦
      let same : k ≡ id = (eq_iff k id).0 here in
      rw (same, new, eq_refl id) (omega (arith, unseen-cons id seen d))
  | inr there ↦
      let rest = unseen-new id seen d (rw there at e) new in
      ground (arith, eq_iff k id, eq_iff id k)
]
