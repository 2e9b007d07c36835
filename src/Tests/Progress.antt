-- ===== src/Tests/Progress.antt =====
-- Concrete learners and curricula for learning/server/progress.py.
use flight_test_lab.Prelude.{
  ℕ, ◌≡◌, String, refl, true, false, none, some, List, [], ◌∷◌, map, arith, str_eq, ◌&&◌, all,
  if◌then◌else◌,
}
use flight_test_lab.Prelude.Int.{pos}
use flight_test_lab.Dict
use flight_test_lab.Dict.{Dict, AllValues}
use flight_test_lab.Result.{ok}
use flight_test_lab.Json.{Json, Fields}
use flight_test_lab.Curriculum.{Lesson, Curriculum}
use flight_test_lab.Progress.{value, State, empty_state, empty_lesson_record}
use flight_test_lab.Progress.Store.{ProgressStore}
use flight_test_lab.Progress.Store.Safety.{IsComplete, IsOk}
use flight_test_lab.Progress.History.{Call, perform_all, perform_all-IsComplete}
use flight_test_lab.Progress.Queries.{Fraction, interview_weights}
use flight_test_lab.Progress.Queries.Weights.{IsKept, names, interview_weights-IsKept}
use flight_test_lab.Progress.Completion.{
  completion_map, lesson_completion, mark_complete, resume_lesson_id,
}
use flight_test_lab.Progress.Completion.Gates.{IsFull}
use flight_test_lab.Progress.Completion.Rule.{stands, rule, IsBackward}
use flight_test_lab.Progress.Completion.Walk.{Decides}
use flight_test_lab.Progress.Completion.Verdict.{
  verdict, Marked, completion_map-eq-verdict, lesson_completion-eq-verdict, mark_complete-Marked,
}
use flight_test_lab.Progress.Completion.Resume.{Resumes, resume_lesson_id-Resumes}

abbrev lesson_of : String → List String → List Fields → Lesson
lesson_of id prerequisites blocks = record {
  id = id;
  day = pos 1;
  title = id;
  objective = "";
  estimated_minutes = pos 10;
  status = "available";
  unavailable_reason = "";
  concepts = [];
  prerequisites = prerequisites;
  source_files = [];
  flow = none;
  blocks = blocks;
  hints = [];
  requirements = [];
  requires = [];
}

-- A mandatory check, and a quiz.
abbrev build_check : Fields
build_check =
    Fields.field "type" (Json.str "verify")
      (Fields.field "id" (Json.str "build") (Fields.field "mandatory" (Json.bool true) Fields.end))

abbrev ports_quiz : Fields
ports_quiz = Fields.field "type" (Json.str "quiz") (Fields.field "id" (Json.str "ports") Fields.end)

abbrev sockets : Lesson
sockets = lesson_of "sockets" [] (build_check ∷ ports_quiz ∷ [])

abbrev telemetry : Lesson
telemetry = lesson_of "telemetry" ("sockets" ∷ []) []

abbrev program : Curriculum
program = record {
  concepts = [];
  days =
      record { day = pos 1; title = "One"; summary = ""; lesson_ids = "sockets" ∷ "telemetry" ∷ [] }
      ∷ [];
  lessons = ("sockets", sockets) ∷ ("telemetry", telemetry) ∷ [];
  ordered_lesson_ids = "sockets" ∷ "telemetry" ∷ [];
  interview = [];
  flows = [];
}

abbrev rank : String → ℕ
rank id = if str_eq id "telemetry" then 1 else 0

program-IsBackward : IsBackward rank program.lessons
program-IsBackward = (refl, tt, (refl, (omega arith, tt), tt))

-- The learner has completed the first lesson and started the second.
abbrev learner : State
learner = record {
  last_lesson_id = some "telemetry";
  lessons =
      (
        "sockets",
        record empty_lesson_record {
          status = value "complete";
          validations = value (("build", record { passed = value true; at = value "1" }) ∷ []);
          quiz_correct = value ("ports" ∷ []);
        },
      )
      ∷ ("telemetry", record empty_lesson_record { status = value "in_progress" })
      ∷ [];
  concepts = [];
  interview = [];
}

abbrev store : ProgressStore
store = record { state = learner; saved = learner }

learner-IsFull : AllValues IsFull learner.lessons
learner-IsFull = (ground arith, (ground arith, tt))

completion_map-eq-verdict_example :
    (completion_map learner program
      ≡ ok (map (λ i. (i, verdict rank learner program i)) ("sockets" ∷ "telemetry" ∷ [])))
    × (verdict rank learner program "sockets"
        ≡ rule learner program (verdict rank learner program) "sockets")
completion_map-eq-verdict_example =
    completion_map-eq-verdict learner program rank program-IsBackward learner-IsFull "sockets"

telemetry_known : Dict.get "telemetry" program.lessons ≡ some telemetry
unfolding Dict.get
telemetry_known = refl

lesson_completion-eq-verdict_example :
    Decides
      (stands learner telemetry && all (verdict rank learner program) telemetry.prerequisites)
      (lesson_completion learner telemetry (some program))
lesson_completion-eq-verdict_example =
    lesson_completion-eq-verdict learner program rank program-IsBackward learner-IsFull telemetry
      telemetry_known

mark_complete-Marked_example :
    Marked "2" telemetry store
      (stands learner telemetry && all (verdict rank learner program) telemetry.prerequisites)
      (mark_complete "2" telemetry (some program) store)
mark_complete-Marked_example =
    mark_complete-Marked program rank "2" telemetry store program-IsBackward learner-IsFull
      telemetry_known

resume_lesson_id-Resumes_example :
    Resumes program (verdict rank learner program) (resume_lesson_id learner program)
resume_lesson_id-Resumes_example =
    resume_lesson_id-Resumes learner program rank program-IsBackward learner-IsFull

abbrev pub new_store : ProgressStore
new_store = record { state = empty_state; saved = empty_state }

pub new_store-IsComplete : IsComplete empty_state
new_store-IsComplete = record { lessons = tt; concepts = tt; interview = tt }

abbrev first_day : List (String × Call)
first_day =
    ("1", Call.start "sockets")
    ∷ ("2", Call.validation "sockets" "build" false true ("tcp" ∷ []) false)
    ∷ ("3", Call.hint "sockets" 0)
    ∷ ("4", Call.validation "sockets" "build" true true ("tcp" ∷ []) false)
    ∷ ("5", Call.quiz "sockets" "ports" true [])
    ∷ ("6", Call.complete sockets)
    ∷ []

perform_all-IsComplete_example :
    IsOk (perform_all program first_day new_store).0
    × IsComplete (perform_all program first_day new_store).1.state
perform_all-IsComplete_example =
    perform_all-IsComplete program first_day new_store new_store-IsComplete

abbrev two_questions : Dict (List String)
two_questions = ("q1", "tcp" ∷ []) ∷ ("q2", []) ∷ []

interview_weights-IsKept_example :
    (ws : Dict Fraction) × (interview_weights empty_state two_questions ≡ ok ws)
    × (names ws ≡ names two_questions)
    × AllValues IsKept ws
interview_weights-IsKept_example =
    interview_weights-IsKept empty_state two_questions new_store-IsComplete tt
