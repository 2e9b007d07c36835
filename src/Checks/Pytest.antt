-- ===== src/Checks/Pytest.antt =====
-- learning/checks/pytest_check.py: the check that runs pytest and believes its report, not only its
-- exit status. What the child process answers and what `re.search` finds are parameters.
pub mod Proof
use flight_test_lab.Prelude.{
  ◌+◌, leb, ℕ, zero, suc, String, Bool, true, false, not, ◌&&◌, ◌||◌, Option, none, some, List, [],
  ◌∷◌, ◌++◌, str_eq, contains, all, is_empty, if◌then◌else◌,
}
use Prim.Native.String
use flight_test_lab.Prelude.Int.{ℤ, pos, eq_ℤ, pos_part, neg_part, float_limit}
use flight_test_lab.Result.{Result, ok, err, ◌>>=◌, ◌>>◌, raise_if}
use flight_test_lab.Json.{Json, Items, Fields, null, int, str, arr, member, get, truthy, items}
use flight_test_lab.Curriculum.Values.{strings}
use flight_test_lab.Validators.{text_length, text_take, truncate}

-- The ValueErrors, the OverflowError of `clamp_timeout`, and the `re.error` of a pattern.
pub data CheckError : Type 0 where
  bad_nodeids bad_expect bad_junit_contains bad_patterns bad_pytest_args : CheckError
  timeout_overflow bad_pattern : CheckError

pub record Settings : Type 0 where
  pub nodeids : List String
  -- `expect == "pass"`
  pub expects_pass : Bool
  pub junit_contains : List Json
  pub patterns : List String
  pub require_failure : Bool
  pub pytest_args : List String
  -- what `clamp_timeout` reads; one that is missing and a null both stand for the default
  pub timeout_seconds : Json

-- `p in text`
abbrev pub starts_with : String → String → Bool
starts_with p text = str_eq (text_take (text_length p) text) p

unfoldable pub is_part : String → String → Bool
is_part p String.[] = starts_with p ""
is_part p (String.◌∷◌ c text) = starts_with p (String.◌∷◌ c text) || is_part p text

-- A list of texts, or the error.
abbrev texts_or : CheckError → Option (List String) → Result CheckError (List String)
texts_or e none = err e
texts_or e (some texts) = ok texts

abbrev text_list : CheckError → Json → Result CheckError (List String)
text_list e (arr vs) = texts_or e (strings vs)
text_list e _ = err e

-- `args.get(key, [])`
abbrev or_empty : Option Json → Json
or_empty none = arr Items.nil
or_empty (some v) = v

abbrev expect_of : Option Json → Result CheckError Bool
expect_of none = ok true
expect_of (some (str e)) =
    if str_eq e "pass" then ok true else if str_eq e "fail" then ok false else err bad_expect
expect_of (some _) = err bad_expect

abbrev listed : Json → Result CheckError (List Json)
listed (arr vs) = ok (items vs)
listed _ = err bad_junit_contains

abbrev patterns_of : Json → Result CheckError (List String)
patterns_of (str p) = ok (p ∷ [])
patterns_of null = ok []
patterns_of other = text_list bad_patterns other

-- Whether `float(raw)` in `clamp_timeout` raises an OverflowError, which it does not catch.
abbrev is_too_large : Json → Bool
is_too_large (int n) = leb float_limit (pos_part n + neg_part n)
is_too_large _ = false

-- The guards of `run`, in their order.
unfoldable pub settings_of : Fields → Result CheckError Settings
settings_of args = do
  nodeids ← text_list bad_nodeids (get "nodeids" args)
  raise_if (is_empty nodeids) bad_nodeids
  expects_pass ← expect_of (member "expect" args)
  junit_contains ← listed (or_empty (member "junit_contains" args))
  patterns ← patterns_of (get "expect_stdout_regex" args)
  raise_if (is_too_large (get "timeout_seconds" args)) timeout_overflow
  pytest_args ← text_list bad_pytest_args (or_empty (member "pytest_args" args))
  ok (record {
    nodeids = nodeids;
    expects_pass = expects_pass;
    junit_contains = junit_contains;
    patterns = patterns;
    require_failure = truthy (get "require_assertion_failure" args);
    pytest_args = pytest_args;
    timeout_seconds = get "timeout_seconds" args;
  })

-- A `testcase` element: its `name`, and whether it has a `skipped` and a `failure` child.
pub record TestCase : Type 0 where
  pub name : Option String
  pub is_skipped : Bool
  pub has_failure : Bool

-- What `run_subprocess` answers, and the report at `junit_path`: `none` where the file does not exist
-- or does not parse.
pub record Child : Type 0 where
  pub exit_status : Option ℤ
  pub stdout : String
  pub stderr : String
  pub timed_out : Bool
  pub report : Option (List TestCase)

abbrev pub cases_of : Option (List TestCase) → List TestCase
cases_of none = []
cases_of (some cases) = cases

-- The names of the test cases that pass a test; one without a name is left out.
unfoldable pub names_where : (TestCase → Bool) → List TestCase → List String
names_where p [] = []
names_where p (c ∷ cs) =
    let rest = names_where p cs in
    elim c.name [ none ↦ rest | some n ↦ if not (str_eq n "") && p c then n ∷ rest else rest ]

pub record Names : Type 0 where
  pub found : List String
  pub skipped : List String
  pub failed : List String

unfoldable pub junit_test_names : Option (List TestCase) → Names
junit_test_names report = record {
  found = names_where (λ c. true) (cases_of report);
  skipped = names_where (λ c. c.is_skipped) (cases_of report);
  failed = names_where (λ c. c.has_failure) (cases_of report);
}

pub data Failure : Type 0 where
  not_finished exited_zero : Failure
  not_passed : Option ℤ → Failure
  not_in_report all_skipped errored no_match : String → Failure

abbrev pub is_zero : Option ℤ → Bool
is_zero none = false
is_zero (some n) = eq_ℤ n (pos 0)

unfoldable pub exit_failures : Bool → Child → List Failure
exit_failures expects_pass child =
    if child.timed_out
    then not_finished ∷ []
    else if expects_pass && not (is_zero child.exit_status)
    then not_passed child.exit_status ∷ []
    else if not expects_pass && is_zero child.exit_status
    then exited_zero ∷ []
    else []

-- `[name for name in test_names if expected_name in name]`
unfoldable pub matching : String → List String → List String
matching expected [] = []
matching expected (n ∷ ns) =
    let rest = matching expected ns in if is_part expected n then n ∷ rest else rest

-- One round of the loop over `junit_contains`.
unfoldable pub name_failures : Names → Bool → Json → List Failure
name_failures names require (str expected) =
    let matches = matching expected names.found in
    if is_empty matches
    then not_in_report expected ∷ []
    else if all (λ n. contains n names.skipped) matches
    then all_skipped expected ∷ []
    else if require && all (λ n. not (contains n names.failed)) matches
    then errored expected ∷ []
    else []
name_failures names require _ = []

unfoldable pub report_failures : Names → Bool → List Json → List Failure
report_failures names require [] = []
report_failures names require (e ∷ es) =
    name_failures names require e ++ report_failures names require es

-- `re.search` answers whether it finds the pattern, or `none` for a pattern that is none.
unfoldable pub pattern_failures :
    (String → String → Option Bool) → String → List String → Result CheckError (List Failure)
pattern_failures re_search stdout [] = ok []
pattern_failures re_search stdout (p ∷ ps) =
    let rest = pattern_failures re_search stdout ps in
    elim (re_search p stdout) [
      | none ↦ err bad_pattern
      | some true ↦ rest
      | some false ↦ elim rest [ ok more ↦ ok (no_match p ∷ more) | err e ↦ err e ]
    ]

-- The `CheckResult`, with the failures in place of their wording.
pub record Verdict : Type 0 where
  pub passed : Bool
  pub failures : List Failure
  pub exit_status : Option ℤ
  pub stdout : String
  pub stderr : String
  pub timed_out : Bool
  pub names : Names

abbrev pub verdict_of : Child → Names → List Failure → Verdict
verdict_of child names failures = record {
  passed = is_empty failures;
  failures = failures;
  exit_status = child.exit_status;
  stdout = truncate child.stdout;
  stderr = truncate child.stderr;
  timed_out = child.timed_out;
  names = names;
}

unfoldable pub judge :
    (String → String → Option Bool) → Settings → Child → Result CheckError Verdict
judge re_search settings child =
    let names = junit_test_names child.report in
    do
      unmatched ← pattern_failures re_search child.stdout settings.patterns
      ok (
          verdict_of child names (
            exit_failures settings.expects_pass child
            ++ report_failures names settings.require_failure settings.junit_contains
            ++ unmatched))

-- `pytest` runs the child with the settings.
unfoldable pub run :
    (Settings → Child) → (String → String → Option Bool) → Fields → Result CheckError Verdict
run pytest re_search args = do
  settings ← settings_of args
  judge re_search settings (pytest settings)
