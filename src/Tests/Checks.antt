-- ===== src/Tests/Checks.antt =====
-- A concrete run of the check of learning/checks/pytest_check.py.
use flight_test_lab.Prelude.{String, Bool, true, false, ◌≡◌, refl, Option, some, [], ◌∷◌}
use flight_test_lab.Prelude.Int.{pos}
use flight_test_lab.Result.{ok}
use flight_test_lab.Json.{Json, Items, Fields, member, truthy, items, str, arr, end, field}
use flight_test_lab.Curriculum.Values.{strings}
use flight_test_lab.Validators.{text_length, text_take}
use flight_test_lab.Checks.Pytest.{
  Settings, Child, Verdict, all_skipped, verdict_of, is_part, settings_of, names_where,
  junit_test_names, exit_failures, matching, name_failures, report_failures, pattern_failures,
  judge, run,
}
use flight_test_lab.Checks.Pytest.Proof.{is_proved, run-proved}

-- {"nodeids": ["tests"], "junit_contains": ["ping"], "expect_stdout_regex": "passed"}
abbrev ping_args : Fields
ping_args = field "nodeids" (arr (Items.cons (str "tests") Items.nil)) (
    field "junit_contains" (arr (Items.cons (str "ping") Items.nil))
      (field "expect_stdout_regex" (str "passed") end))

-- The report has one test, and it was skipped.
abbrev skipped_run : Settings → Child
skipped_run settings = record {
  exit_status = some (pos 0);
  stdout = "1 skipped";
  stderr = "";
  timed_out = false;
  report = some (record { name = some "test_ping"; is_skipped = true; has_failure = false } ∷ []);
}

abbrev no_pattern : String → String → Option Bool
no_pattern p text = some true

abbrev ping_settings : Settings
ping_settings = record {
  nodeids = "tests" ∷ [];
  expects_pass = true;
  junit_contains = str "ping" ∷ [];
  patterns = "passed" ∷ [];
  require_failure = false;
  pytest_args = [];
  timeout_seconds = Json.null;
}

abbrev ping_verdict : Verdict
ping_verdict =
    verdict_of (skipped_run ping_settings)
      (record { found = "test_ping" ∷ []; skipped = "test_ping" ∷ []; failed = [] })
      (all_skipped "ping" ∷ [])

ping_runs : run skipped_run no_pattern ping_args ≡ ok ping_verdict
unfolding run settings_of member truthy items strings judge names_where junit_test_names
    exit_failures matching name_failures report_failures pattern_failures is_part text_length
    text_take
ping_runs = refl

run-proved_example :
    (settings : Settings) × (settings_of ping_args ≡ ok settings)
    × (ping_verdict.passed ≡ is_proved no_pattern settings (skipped_run settings))
run-proved_example = run-proved skipped_run no_pattern ping_args ping_runs
