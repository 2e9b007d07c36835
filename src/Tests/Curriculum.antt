-- ===== src/Tests/Curriculum.antt =====
-- A concrete program for learning/server/curriculum.py.
use flight_test_lab.Prelude.{String, ◌≡◌, refl, false, none, List, [], ◌∷◌}
use flight_test_lab.Prelude.Int.{pos}
use flight_test_lab.Result.{ok}
use flight_test_lab.Dict
use flight_test_lab.Json.{Json, Items, Fields, member, truthy}
use flight_test_lab.Curriculum.{Lesson, Curriculum}
use flight_test_lab.Curriculum.Values.{
  Site, require_str_list, require_str, is_blank, objects, strings,
}
use flight_test_lab.Curriculum.Schema.{parse_lesson, offer, check_hints}
use flight_test_lab.Curriculum.Blocks.{
  validate_blocks, check_block, require_keys, required_keys, check_explain, check_question,
  check_verify, count_items,
}
use flight_test_lab.Curriculum.Files.{File, Files, check_concepts}
use flight_test_lab.Curriculum.Interview.{load_interview, load_question, load_questions}
use flight_test_lab.Curriculum.Load.{
  load_curriculum, load_program, load_days, load_day, load_lessons, load_lesson, check_flows,
  check_lessons, check_prerequisite, check_prerequisites, load_flows, position,
}
use flight_test_lab.Curriculum.Places.{rank_in}
use flight_test_lab.Progress.{empty_state}
use flight_test_lab.Progress.Completion.{resume_lesson_id}
use flight_test_lab.Progress.Completion.Rule.{IsBackward}
use flight_test_lab.Progress.Completion.Verdict.{verdict}
use flight_test_lab.Progress.Completion.Resume.{IsSensible}
use flight_test_lab.Progress.Completion.Loaded.{
  IsPlaced, load_curriculum-IsBackward, resume_lesson_id-IsSensible,
}

abbrev one : Json → Json
one v = Json.arr (Items.cons v Items.nil)

abbrev two : Json → Json → Json
two v w = Json.arr (Items.cons v (Items.cons w Items.nil))

abbrev pub site : Site
site = record {
  known_validators = [];
  can_build_cpp = false;
  can_debug = false;
  reason = λ r. r;
  py_str = λ v. "";
}

abbrev learn_block : Fields
learn_block =
    Fields.field "type" (Json.str "learn")
      (Fields.field "id" (Json.str "read") (Fields.field "text" (Json.str "Read.") Fields.end))

abbrev raw_lesson : String → Json → Json
raw_lesson id prerequisites = Json.obj (
    Fields.field "id" (Json.str id) (
      Fields.field "title" (Json.str id) (
        Fields.field "objective" (Json.str id) (
          Fields.field "estimated_minutes" (Json.int (pos 10)) (
            Fields.field "prerequisites" prerequisites
              (Fields.field "blocks" (one (Json.obj learn_block)) Fields.end))))))

abbrev module_file : File
module_file = File.holds (
    Json.obj (
      Fields.field "lessons"
        (two (raw_lesson "sockets" (Json.arr Items.nil))
          (raw_lesson "telemetry" (one (Json.str "sockets"))))
        Fields.end))

abbrev day_entry : Fields
day_entry = Fields.field "day" (Json.int (pos 1)) (
    Fields.field "module" (Json.str "day01.json")
      (Fields.field "title" (Json.str "One") Fields.end))

abbrev question_entry : Fields
question_entry = Fields.field "id" (Json.str "q1") (
    Fields.field "question" (Json.str "Why?") (
      Fields.field "sample_answer" (Json.str "So.")
        (Fields.field "keywords" (one (Json.str "so")) Fields.end)))

abbrev pub files : Files
files = record {
  program = File.holds (
      Json.obj (
        Fields.field "concepts" (one (Json.str "tcp"))
          (Fields.field "days" (one (Json.obj day_entry)) Fields.end)));
  module_ = λ name. module_file;
  interview =
      File.holds (Json.obj (Fields.field "questions" (one (Json.obj question_entry)) Fields.end));
  flows = [];
}

abbrev lesson_of : String → List String → Lesson
lesson_of id prerequisites = record {
  id = id;
  day = pos 1;
  title = id;
  objective = id;
  estimated_minutes = pos 10;
  status = "available";
  unavailable_reason = "";
  concepts = [];
  prerequisites = prerequisites;
  source_files = [];
  flow = none;
  blocks = learn_block ∷ [];
  hints = [];
  requirements = [];
  requires = [];
}

abbrev pub loaded_program : Curriculum
loaded_program = record {
  concepts = "tcp" ∷ [];
  days =
      record { day = pos 1; title = "One"; summary = ""; lesson_ids = "sockets" ∷ "telemetry" ∷ [] }
      ∷ [];
  lessons =
      ("sockets", lesson_of "sockets" [])
      ∷ ("telemetry", lesson_of "telemetry" ("sockets" ∷ []))
      ∷ [];
  ordered_lesson_ids = "sockets" ∷ "telemetry" ∷ [];
  interview =
      record {
        id = "q1";
        question = "Why?";
        concepts = [];
        keywords = "so" ∷ [];
        sample_answer = "So.";
      }
      ∷ [];
  flows = [];
}

pub files_load : load_curriculum site files ≡ ok loaded_program
unfolding load_curriculum require_str_list require_str is_blank objects strings member truthy
    load_program load_days load_day load_lessons load_lesson check_concepts check_flows
    check_lessons check_prerequisite check_prerequisites load_flows load_interview load_question
    load_questions position parse_lesson offer check_hints validate_blocks check_block require_keys
    required_keys check_explain check_question check_verify count_items Dict.get Dict.put
    Dict.values
files_load = refl

load_curriculum-IsBackward_example :
    IsBackward (rank_in ("sockets" ∷ "telemetry" ∷ [])) loaded_program.lessons
    × IsPlaced ("sockets" ∷ "telemetry" ∷ []) loaded_program.lessons
load_curriculum-IsBackward_example = load_curriculum-IsBackward site files files_load

resume_lesson_id-IsSensible_example :
    (id : String) × (resume_lesson_id empty_state loaded_program ≡ ok id)
    × IsSensible loaded_program
        (verdict (rank_in ("sockets" ∷ "telemetry" ∷ [])) empty_state loaded_program)
        id
resume_lesson_id-IsSensible_example =
    resume_lesson_id-IsSensible site files empty_state files_load tt
