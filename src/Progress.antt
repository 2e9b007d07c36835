-- ===== src/Progress.antt =====
-- learning/server/progress.py: the learner's state, as `_load` admits it.
pub mod Record
pub mod Store
pub mod Completion
pub mod History
pub mod Loading
pub mod Queries
use flight_test_lab.Prelude.{ℕ, String, Bool, Option, none, some, List, []}
use flight_test_lab.Dict.{Dict}
use flight_test_lab.Json.{Json}

-- A field of a persisted record: the loader admits a missing key and a `null`, besides a value of the
-- field's type.
pub data Slot {ℓ} (A : Type ℓ) : Type ℓ where
  absent null : Slot A
  value : A → Slot A

-- An entry of `record["validations"]`.
pub record Outcome : Type 0 where
  pub passed : Slot Bool
  pub at : Slot String

pub record LessonRecord : Type 0 where
  pub status : Slot String
  pub steps_done : Slot (List String)
  pub validations : Slot (Dict Outcome)
  pub quiz_correct : Slot (List String)
  pub quiz_attempts : Slot ℕ
  pub explain_done : Slot (List String)
  pub attempts : Slot ℕ
  pub hints_used : Slot ℕ
  pub interview_baseline : Slot ℕ
  -- The loader does not look at the two times, so any value may stand there.
  pub started_at : Option Json
  pub completed_at : Option Json

pub record ConceptEntry : Type 0 where
  pub correct : Slot ℕ
  pub incorrect : Slot ℕ
  pub last_seen : Option Json

pub record InterviewEntry : Type 0 where
  pub correct : Slot ℕ
  pub incorrect : Slot ℕ
  pub streak : Slot ℕ

pub record State : Type 0 where
  pub last_lesson_id : Option String
  pub lessons : Dict LessonRecord
  pub concepts : Dict ConceptEntry
  pub interview : Dict InterviewEntry

-- `_empty_state()`
abbrev pub empty_state : State
empty_state = record { last_lesson_id = none; lessons = []; concepts = []; interview = [] }

-- `_empty_lesson_record()`
abbrev pub empty_lesson_record : LessonRecord
empty_lesson_record = record {
  status = value "not_started";
  steps_done = value [];
  validations = value [];
  quiz_correct = value [];
  quiz_attempts = value 0;
  explain_done = value [];
  attempts = value 0;
  hints_used = value 0;
  interview_baseline = value 0;
  started_at = some Json.null;
  completed_at = some Json.null;
}

-- What Python raises where a record is not as the code expects it; an AttributeError of `None` is a
-- `type_error` too.
pub data Raised : Type 0 where
  key_error type_error value_error index_error stop_iteration overflow_error : Raised
  -- No exception of Python: a recursion of the model was given too little fuel.
  out_of_fuel : Raised
