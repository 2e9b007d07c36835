-- ===== src/Server/Checks.antt =====
-- `_handle_validate` of learning/server/app.py. The checks of the registry are a parameter.
use flight_test_lab.Prelude.{
  String, Bool, true, false, not, ◌&&◌, Option, none, some, List, [], if◌then◌else◌,
}
use Prim.Native.String
use flight_test_lab.Json.{Json, Fields, str, obj, end, member, get, truthy}
use flight_test_lab.Curriculum.{Lesson, Curriculum, has_type, find_block, text, is_text}
use flight_test_lab.Progress.Store.{record_validation}
use flight_test_lab.Progress.Completion.{validation_passed}
use flight_test_lab.Validators.{
  Registry, CheckResult, Outcome, finished, crashed, run_validator, truncate,
}
use flight_test_lab.Server.Thread.{Thread, returns, call, ask, is_shutting_down, ◌>>=◌, ◌>>◌}
use flight_test_lab.Server.Request.{bad_validator_args, no_verify_block, not_started, stopped}
use flight_test_lab.Server.Payload.{Payload, Reply, success}
use flight_test_lab.Server.Steps.{fail, with_lesson, if_available}

-- `block["type"] == "verify" and block["id"] == block_id`; the loader admits only texts as ids.
abbrev pub is_verify_block : Json → Fields → Bool
is_verify_block (str id) b = has_type "verify" b && is_text id (get "id" b)
is_verify_block _ b = false

unfoldable pub verify_block : Lesson → Json → Option Fields
unfolding find_block
verify_block lesson block_id = find_block (is_verify_block block_id) lesson.blocks

-- The result in place of one that the exception left missing.
abbrev pub crash_result : String → String → String → CheckResult
crash_result name trace error = record {
  name = name;
  passed = false;
  exit_status = none;
  stdout = "";
  stderr = truncate trace;
  duration_ms = 0;
  interpretation = String.◌++◌ "The check could not run: " (
      String.◌++◌ error
        ". That is a fault in the check itself, not in your work — but nothing was verified, so the gate stays shut.");
  timed_out = false;
  details = end;
}

abbrev pub is_crash : Outcome → Bool
is_crash (finished result) = false
is_crash (crashed trace error) = true

abbrev pub result_of : String → Outcome → CheckResult
result_of name (finished result) = result
result_of name (crashed trace error) = crash_result name trace error

abbrev pub red_stage_note : String
red_stage_note =
    "\n\nThis is a red-stage check: you already recorded it passing, and that record stands. It stops reproducing once the lesson's work is done — which is the point — so your completion is not affected."

-- `payload`, with the note where an earlier pass stands
abbrev pub with_note : Bool → CheckResult → CheckResult
with_note already_seen result =
    if already_seen && not result.passed
    then record result { interpretation = String.◌++◌ result.interpretation red_stage_note }
    else result

abbrev pub is_historical : Fields → Bool
is_historical block = truthy (get "historical" block)

abbrev pub is_mandatory : Fields → Bool
is_mandatory block = truthy (get "mandatory" block)

abbrev pub credited : Outcome → List String → List String
credited outcome concepts = if is_crash outcome then [] else concepts

-- `validation_passed`, which is asked only for a historical check
abbrev pub seen_before : String → String → Bool → Thread Bool
seen_before lesson_id block_id true = ask (λ p. validation_passed p.state lesson_id block_id)
seen_before lesson_id block_id false = returns false

-- The outcome of a check is recorded and answered.
unfoldable pub settle_check : String → Lesson → String → Fields → Outcome → Thread Reply
settle_check now lesson block_id block outcome = do
  already_seen ← seen_before lesson.id block_id (is_historical block)
  call (
      record_validation now lesson.id block_id
        (result_of (text (get "validator" block)) outcome).passed (is_mandatory block)
        (credited outcome lesson.concepts) (is_historical block))
  returns (
      success (
        Payload.checked
          (with_note already_seen (result_of (text (get "validator" block)) outcome))))

-- `block.get("args", {})`, if it is an object
abbrev pub args_of : Option Json → Option Fields
args_of none = some end
args_of (some (obj args)) = some args
args_of (some _) = none

-- What follows the check: the test of the shutdown stands in the `try`, so a crash goes past it.
unfoldable pub after_check : String → Lesson → String → Fields → Outcome → Thread Reply
after_check now lesson block_id block (crashed trace error) =
    settle_check now lesson block_id block (crashed trace error)
after_check now lesson block_id block (finished result) = do
  down ← is_shutting_down
  (if down then fail 503 stopped else settle_check now lesson block_id block (finished result))

-- The check under the validators' lock, with the tests of the shutdown before and after it.
unfoldable pub run_check : Registry → String → Lesson → String → Fields → Fields → Thread Reply
run_check checks now lesson block_id block args = do
  down ← is_shutting_down
  (if down
      then fail 503 not_started
      else after_check now lesson block_id block
          (run_validator checks (get "validator" block) args))

unfoldable pub check_block : Registry → String → Lesson → String → Fields → Thread Reply
check_block checks now lesson block_id block = elim (args_of (member "args" block)) [
  | none ↦ fail 500 bad_validator_args
  | some args ↦ run_check checks now lesson block_id block args
]

unfoldable pub handle_validate : Registry → Curriculum → String → Fields → Thread Reply
handle_validate checks c now body = with_lesson c (get "lesson_id" body) λ lesson.
    if_available lesson (elim (verify_block lesson (get "block_id" body)) [
      | none ↦ fail 404 (no_verify_block lesson.id)
      | some block ↦ check_block checks now lesson (text (get "block_id" body)) block
    ])
