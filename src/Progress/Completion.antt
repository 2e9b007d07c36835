-- ===== src/Progress/Completion.antt =====
-- The gates of learning/server/progress.py: `_lesson_is_complete_locked`,
-- `_lesson_completion_locked`, and the methods that ask them. A `seen` set is a list, the last added
-- first; the set that a call adds to is returned beside its answer.
pub mod Gates
pub mod Rule
pub mod Siblings
pub mod Walk
pub mod Verdict
pub mod Resume
pub mod Loaded
use flight_test_lab.Prelude.{
  ℕ, zero, suc, String, Bool, true, false, not, ◌&&◌, ◌||◌, Option, none, some, List, [], ◌∷◌, ◌++◌,
  str_eq, contains, is_empty, length, if◌then◌else◌, all,
}
use flight_test_lab.Dict
use flight_test_lab.Dict.{Dict, has, or_else}
use flight_test_lab.Json.{Json, Fields}
use flight_test_lab.Result.{Result, ok, err, ◌>>=◌}
use flight_test_lab.Exec
use flight_test_lab.Curriculum.{
  Lesson, Curriculum, block_id, mandatory_validators, required_quiz_ids, required_explain_ids,
}
use flight_test_lab.Progress.{
  index_error, Slot, absent, null, value, Outcome, LessonRecord, State, Raised, key_error,
  type_error, out_of_fuel,
}
use flight_test_lab.Progress.Record.{have, has_status, is_true, previous_passed}
use flight_test_lab.Progress.Store.{ProgressStore, Method, on_record, save}

-- The messages of the missing requirements, by what they name.
pub data Missing : Type 0 where
  unavailable not_started : Missing
  prerequisite validation quiz explain : String → Missing

-- The loop over the mandatory validators.
unfoldable pub missing_validations :
    Slot (Dict Outcome) → List Fields → Result Raised (List Missing)
missing_validations vs [] = ok []
missing_validations vs (b ∷ bs) = do
  outcomes ← have vs
  rest ← missing_validations vs bs
  ok (
      if is_true (previous_passed (block_id b) outcomes)
      then rest
      else validation (block_id b) ∷ rest)

-- The loops over the quiz and the explain blocks.
unfoldable pub missing_ids :
    (String → Missing) → Slot (List String) → List String → Result Raised (List Missing)
missing_ids message xs [] = ok []
missing_ids message xs (id ∷ ids) = do
  present ← have xs
  rest ← missing_ids message xs ids
  ok (if contains id present then rest else message id ∷ rest)

-- `_lesson_is_complete_locked` as the loop calls it: the answer, and the set after the call.
abbrev pub CompletionCall : Type 0
CompletionCall = String → List String → Result Raised (Bool × List String)

-- The loop over the prerequisites: the calls share one set.
unfoldable pub missing_prerequisites :
    CompletionCall → List String → List String → Result Raised (List Missing)
missing_prerequisites is_complete [] seen = ok []
missing_prerequisites is_complete (p ∷ ps) seen = do
  answer ← is_complete p seen
  rest ← missing_prerequisites is_complete ps answer.1
  ok (if answer.0 then rest else prerequisite p ∷ rest)

-- The requirements of one record: `record["validations"]` is read before its loop.
unfoldable pub missing_gates : LessonRecord → Lesson → Result Raised (List Missing)
unfolding missing_validations missing_ids
missing_gates r lesson = do
  validations ← elim r.validations [ absent ↦ err key_error | _ ↦ ok r.validations ]
  unpassed ← missing_validations validations (mandatory_validators lesson)
  unanswered ← missing_ids quiz r.quiz_correct (required_quiz_ids lesson)
  unexplained ← missing_ids explain r.explain_done (required_explain_ids lesson)
  ok (unpassed ++ unanswered ++ unexplained)

unfoldable pub completion_of :
    CompletionCall → State → Lesson → List String → Result Raised (Bool × List Missing)
unfolding missing_prerequisites missing_gates
completion_of is_complete s lesson seen =
    if str_eq lesson.status "unavailable"
    then ok (false, unavailable ∷ [])
    else elim (Dict.get lesson.id s.lessons) [
      | none ↦ ok (false, not_started ∷ [])
      | some r ↦ do
        locked ← missing_prerequisites is_complete lesson.prerequisites (lesson.id ∷ seen)
        gates ← missing_gates r lesson
        ok (is_empty (locked ++ gates), locked ++ gates)
    ]

-- `record is None or record.get("status") != "complete"`, turned round
unfoldable pub marked_complete : State → String → Bool
marked_complete s lesson_id = elim (Dict.get lesson_id s.lessons) [
  | none ↦ false
  | some r ↦ has_status "complete" r
]

-- The end of `_lesson_is_complete_locked`: the lesson's own gates.
abbrev pub with_seen :
    List String → Result Raised (Bool × List Missing) → Result Raised (Bool × List String)
with_seen seen (ok (complete, missing)) = ok (complete, seen)
with_seen seen (err e) = err e

unfoldable pub is_complete : ℕ → State → Option Curriculum → CompletionCall
is_complete zero s curriculum lesson_id seen = err out_of_fuel
is_complete (suc fuel) s curriculum lesson_id seen =
    let lesson : Option Lesson = elim curriculum [
      | none ↦ none
      | some c ↦ Dict.get lesson_id c.lessons
    ] in
    elim (marked_complete s lesson_id) [
      | false ↦ ok (false, seen)
      | true ↦ elim (contains lesson_id seen) [
        | true ↦ ok (true, seen)
        | false ↦ elim lesson [
          | none ↦ ok (true, seen)
          | some l ↦
              with_seen (lesson_id ∷ seen)
                (completion_of (is_complete fuel s curriculum) s l (lesson_id ∷ seen))
        ]
      ]
    ]

abbrev pub lesson_count : Option Curriculum → ℕ
lesson_count none = 0
lesson_count (some c) = length c.lessons

-- Each nested call adds a lesson of the curriculum to the set, so one more call than it has lessons is
-- enough.
abbrev pub fuel_for : Option Curriculum → ℕ
fuel_for curriculum = suc (lesson_count curriculum)

-- `lesson_completion`, and `_lesson_completion_locked` without a set
unfoldable pub lesson_completion :
    State → Lesson → Option Curriculum → Result Raised (Bool × List Missing)
lesson_completion s lesson curriculum =
    completion_of (is_complete (fuel_for curriculum) s curriculum) s lesson []

-- What `mark_complete` writes into the record.
abbrev pub completed : String → LessonRecord → LessonRecord
completed now r = record r { status = value "complete"; completed_at = some (Json.str now) }

unfoldable pub mark_complete : String → Lesson → Option Curriculum → Method (Bool × List Missing)
mark_complete now lesson curriculum p = elim (lesson_completion p.state lesson curriculum) [
  | err e ↦ (err e, p)
  | ok (false, missing) ↦ (ok (false, missing), p)
  | ok (true, missing) ↦
      (Exec.◌>>=◌ (on_record lesson.id (λ r. (ok tt, completed now r)))
          (λ _. Exec.◌>>=◌ save (λ _. Exec.pure (true, []))))
        p
]

-- `completion_map`: every lesson is asked with a set of its own.
unfoldable pub map_over : State → Curriculum → List String → Result Raised (Dict Bool)
map_over s c [] = ok []
map_over s c (id ∷ ids) = do
  answer ← is_complete (fuel_for (some c)) s (some c) id []
  rest ← map_over s c ids
  ok ((id, answer.0) ∷ rest)

unfoldable pub completion_map : State → Curriculum → Result Raised (Dict Bool)
unfolding map_over
completion_map s c = map_over s c c.ordered_lesson_ids

unfoldable pub validation_passed : State → String → String → Result Raised Bool
validation_passed s lesson_id block_id = elim (Dict.get lesson_id s.lessons) [
  | none ↦ ok false
  | some r ↦ elim r.validations [
    | absent ↦ ok false
    | null ↦ err type_error
    | value vs ↦ ok (is_true (previous_passed block_id vs))
  ]
]

-- `is_actionable` of `resume_lesson_id`
unfoldable pub is_actionable : Curriculum → Dict Bool → String → Bool
is_actionable c complete lesson_id = elim (Dict.get lesson_id c.lessons) [
  | none ↦ false
  | some lesson ↦
      not (str_eq lesson.status "unavailable")
      && not (Dict.get_or lesson_id false complete)
      && all (λ p. Dict.get_or p false complete) lesson.prerequisites
]

unfoldable pub first_actionable : Curriculum → Dict Bool → List String → Option String
first_actionable c complete [] = none
first_actionable c complete (id ∷ ids) =
    if is_actionable c complete id then some id else first_actionable c complete ids

-- `ordered_lesson_ids[-1]`; the loader refuses a curriculum without lessons.
abbrev pub last_of : List String → Option String
last_of [] = none
last_of (id ∷ []) = some id
last_of (id ∷ j ∷ ids) = last_of (j ∷ ids)

abbrev pub orelse {ℓ} : {A : Type ℓ} → Option A → Option A → Option A
orelse none o = o
orelse (some a) o = some a

-- The lesson where the learner was, if it can be worked on.
abbrev pub where_last : Curriculum → Dict Bool → Option String → Option String
where_last c complete none = none
where_last c complete (some id) = if is_actionable c complete id then some id else none

-- An empty program has no last lesson.
abbrev pub some_id : Option String → Result Raised String
some_id none = err index_error
some_id (some id) = ok id

unfoldable pub resume_lesson_id : State → Curriculum → Result Raised String
unfolding is_actionable first_actionable
resume_lesson_id s c = do
  complete ← completion_map s c
  some_id (
      orelse (where_last c complete s.last_lesson_id)
        (orelse (first_actionable c complete c.ordered_lesson_ids) (last_of c.ordered_lesson_ids)))
