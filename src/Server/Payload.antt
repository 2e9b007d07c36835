-- ===== src/Server/Payload.antt =====
-- The answers of learning/server/app.py: a status with an error message or with the object that is sent.
use flight_test_lab.Prelude.{ℕ, String, Bool, List, leb}
use flight_test_lab.Dict.{Dict}
use flight_test_lab.Json.{Json, Fields}
use flight_test_lab.Curriculum.{Lesson, Day}
use flight_test_lab.Progress.{Slot, Outcome}
use flight_test_lab.Progress.Completion.{Missing}
use flight_test_lab.Progress.Queries.{Mastery}
use flight_test_lab.Validators.{CheckResult}
use flight_test_lab.Server.Request.{Refusal}

-- `_lesson_public`: the lesson, the hints that were revealed, and the learner's record of it.
pub record LessonView : Type 0 where
  pub lesson : Lesson
  pub revealed_hints : List (Json × Json)
  pub status : Slot String
  pub steps_done : Slot (List String)
  pub validations : Slot (Dict Outcome)
  pub quiz_correct : Slot (List String)
  pub explain_done : Slot (List String)
  pub hints_used : Slot ℕ
  pub complete : Bool
  pub missing : List Missing

-- A lesson of the roadmap.
pub record LessonRow : Type 0 where
  pub lesson : Lesson
  pub progress : Slot String
  pub is_locked : Bool

-- A day of the dashboard.
pub record DayRow : Type 0 where
  pub day : Day
  pub total : ℕ
  pub done : ℕ

pub data Payload : Type 0 where
  lesson : LessonView → Payload
  recorded : Payload
  graded : Bool → Json → Json → Payload
  explained : Bool → List String → Bool → Json → Payload
  hint : Json → Json → ℕ → ℕ → Payload
  checked : CheckResult → Payload
  incomplete : List Missing → Payload
  completed : String → Payload
  answered : Bool → List String → String → Payload
  overview : String → ℕ → ℕ → List DayRow → Dict Mastery → Payload
  roadmap : List String → List (Day × List LessonRow) → Payload
  mastery : Dict Mastery → Payload
  flow : Fields → Payload
  question : String → String → Payload
  -- a file of the page, with its content type
  page : String → List ℕ → Payload

pub data Reply : Type 0 where
  -- `_send_error_json`
  failure : ℕ → Refusal → Reply
  -- `_send_json`
  success : Payload → Reply
  -- `_send_json` with a status of its own
  refused : ℕ → Payload → Reply

abbrev pub status_of : Reply → ℕ
status_of (failure status message) = status
status_of (success payload) = 200
status_of (refused status payload) = status

abbrev pub is_error : Reply → Bool
is_error reply = leb 400 (status_of reply)
