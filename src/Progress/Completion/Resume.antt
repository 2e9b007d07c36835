-- ===== src/Progress/Completion/Resume.antt =====
-- Where `resume_lesson_id` of learning/server/progress.py sends the learner.
use flight_test_lab.Prelude.{
  ℕ, String, ◌≡◌, refl, sym, ap, fun_ext, ◌∙◌, ◌⊎◌, inl, inr, Bool, true, false, not, ◌&&◌, Option,
  none, some, List, [], ◌∷◌, map, str_eq, eq_iff, eq_refl, contains, all, All, Bool-cases,
  Option-cases,
}
use mathlib.Core.Path.{ap₂}
use flight_test_lab.Dict
use flight_test_lab.Dict.{Dict, AllValues}
use flight_test_lab.Result.{Result, ok, err}
use flight_test_lab.Curriculum.{Curriculum}
use flight_test_lab.Progress.{State, Raised, index_error}
use flight_test_lab.Progress.Completion.{
  is_actionable, first_actionable, where_last, last_of, orelse, some_id, resume_lesson_id,
}
use flight_test_lab.Progress.Completion.Gates.{IsFull}
use flight_test_lab.Progress.Completion.Rule.{IsBackward}
use flight_test_lab.Progress.Completion.Verdict.{verdict, completion_map-eq-verdict}

abbrev table : (String → Bool) → List String → Dict Bool
table v ids = map (λ i. (i, v i)) ids

get_or-table :
    (v : String → Bool) (id : String) (ids : List String)
    → Dict.get_or id false (table v ids) ≡ (contains id ids && v id)
unfolding Dict.get
get_or-table v id [] = refl
get_or-table v id (i ∷ ids) = elim (Bool-cases (str_eq i id)) [
  | inl here ↦ rw ((eq_iff i id).0 here, eq_refl id)
  | inr there ↦ rw there (get_or-table v id ids)
]

-- A lesson that the learner can work on: the curriculum has it, it is offered, it is not complete, and
-- its prerequisites are lessons of the program that are complete.
abbrev pub workable : Curriculum → (String → Bool) → String → Bool
workable c v id = elim (Dict.get id c.lessons) [
  | none ↦ false
  | some l ↦
      not (str_eq l.status "unavailable")
      && not (contains id c.ordered_lesson_ids && v id)
      && all (λ p. contains p c.ordered_lesson_ids && v p) l.prerequisites
]

is_actionable-table :
    (c : Curriculum) (v : String → Bool) (id : String)
    → is_actionable c (table v c.ordered_lesson_ids) id ≡ workable c v id
unfolding is_actionable
is_actionable-table c v id = elim (Option-cases (Dict.get id c.lessons)) [
  | inl unknown ↦ rw (unknown, is_actionable, workable)
  | inr (l, known) ↦
      let own = get_or-table v id c.ordered_lesson_ids in
      let before =
        ap (λ (f : String → Bool). all f l.prerequisites)
          (fun_ext (λ p. get_or-table v p c.ordered_lesson_ids)) in
      rw (known, is_actionable, workable)
        (ap₂ (λ (a b : Bool). not (str_eq l.status "unavailable") && not a && b) own before)
]

abbrev found : Curriculum → (String → Bool) → List String → Option String
found c v ids = first_actionable c (table v c.ordered_lesson_ids) ids

first_actionable-some :
    (c : Curriculum) (v : String → Bool) (ids : List String) {id : String}
    → found c v ids ≡ some id
    → workable c v id ≡ true
unfolding first_actionable
first_actionable-some c v [] h = cc
first_actionable-some c v (i ∷ ids) {id} h =
    elim (Bool-cases (is_actionable c (table v c.ordered_lesson_ids) i)) [
      | inl here ↦
          let same : i ≡ id = cc (rw here at h) in
          rw (← same) (sym (is_actionable-table c v i) ∙ here)
      | inr there ↦ first_actionable-some c v ids (rw there at h)
    ]

first_actionable-none :
    (c : Curriculum) (v : String → Bool) (ids : List String)
    → found c v ids ≡ none
    → All (λ i. workable c v i ≡ false) ids
unfolding first_actionable
first_actionable-none c v [] h = tt
first_actionable-none c v (i ∷ ids) h =
    elim (Bool-cases (is_actionable c (table v c.ordered_lesson_ids) i)) [
      | inl here ↦ cc (rw here at h)
      | inr there ↦
          (sym (is_actionable-table c v i) ∙ there, first_actionable-none c v ids (rw there at h))
    ]

-- Where the learner is sent: to a lesson that can be worked on, or, where no lesson of the program
-- can be, to the last lesson of the program.
abbrev pub IsSensible : Curriculum → (String → Bool) → String → Type 0
IsSensible c v id =
    (workable c v id ≡ true)
    ⊎ (All (λ i. workable c v i ≡ false) c.ordered_lesson_ids
        × (last_of c.ordered_lesson_ids ≡ some id))

-- What `resume_lesson_id` answers; it raises an IndexError for a program without lessons alone.
abbrev pub Resumes : Curriculum → (String → Bool) → Result Raised String → Type 0
Resumes c v (ok id) = IsSensible c v id
Resumes c v (err index_error) = c.ordered_lesson_ids ≡ []
Resumes c v (err _) = ⊥

last_of-none : (ids : List String) → last_of ids ≡ none → ids ≡ []
last_of-none [] h = refl
last_of-none (i ∷ []) h = cc
last_of-none (i ∷ j ∷ ids) h = cc (last_of-none (j ∷ ids) h)

fallback-Resumes :
    (c : Curriculum) (v : String → Bool)
    → Resumes c v (some_id (orelse (found c v c.ordered_lesson_ids) (last_of c.ordered_lesson_ids)))
fallback-Resumes c v = elim (Option-cases (found c v c.ordered_lesson_ids)) [
  | inl nothing ↦ elim (Option-cases (last_of c.ordered_lesson_ids)) [
    | inl empty ↦ rw (nothing, empty) (last_of-none c.ordered_lesson_ids empty)
    | inr (i, last) ↦
        rw (nothing, last) (inr (first_actionable-none c v c.ordered_lesson_ids nothing, last))
  ]
  | inr (i, hit) ↦ rw hit (inl (first_actionable-some c v c.ordered_lesson_ids hit))
]

chosen-Resumes :
    (c : Curriculum) (v : String → Bool) (last : Option String)
    → Resumes c v (
        some_id (
          orelse
            (where_last c (table v c.ordered_lesson_ids) last)
            (orelse (found c v c.ordered_lesson_ids) (last_of c.ordered_lesson_ids))))
chosen-Resumes c v none = fallback-Resumes c v
chosen-Resumes c v (some last) =
    elim (Bool-cases (is_actionable c (table v c.ordered_lesson_ids) last)) [
      | inl open_ ↦ rw open_ (inl (sym (is_actionable-table c v last) ∙ open_))
      | inr closed ↦ rw closed (fallback-Resumes c v)
    ]

-- With complete records and backward prerequisites, the lesson that `resume_lesson_id` answers can be
-- worked on, or, where no lesson of the program can be, it is the last one of the program; it raises
-- only for a program without lessons, and then an IndexError.
pub resume_lesson_id-Resumes :
    (s : State) (c : Curriculum) (rank : String → ℕ)
    → IsBackward rank c.lessons
    → AllValues IsFull s.lessons
    → Resumes c (verdict rank s c) (resume_lesson_id s c)
unfolding resume_lesson_id
resume_lesson_id-Resumes s c rank backward full =
    rw ((completion_map-eq-verdict s c rank backward full "").0, resume_lesson_id)
      (chosen-Resumes c (verdict rank s c) s.last_lesson_id)
