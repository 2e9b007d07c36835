-- ===== src/Validators.antt =====
-- learning/server/validators.py: results of checks, and the registry that runs them. The checks
-- themselves are a parameter.
use flight_test_lab.Prelude.{
  ℕ, zero, suc, String, Bool, Option, List, [], ◌∷◌, leb, contains, if◌then◌else◌,
}
use Prim.Native.String
use flight_test_lab.Prelude.Int.{ℤ}
use flight_test_lab.Json.{Json, Fields, str}

abbrev pub max_output_chars : ℕ
max_output_chars = 4000

pub record CheckResult : Type 0 where
  pub name : String
  pub passed : Bool
  pub exit_status : Option ℤ
  pub stdout : String
  pub stderr : String
  pub duration_ms : ℕ
  pub interpretation : String
  pub timed_out : Bool
  pub details : Fields

-- How a check ends: with a result, or with an exception, by its traceback and its type and message.
pub data Outcome : Type 0 where
  finished : CheckResult → Outcome
  crashed : String → String → Outcome

-- The checks of the registry by their names, and the KeyError for a name that it has not.
pub record Registry : Type 0 where
  pub run : String → Fields → Outcome
  pub unknown : Outcome

-- `len(text)`
unfoldable pub text_length : String → ℕ
text_length String.[] = 0
text_length (String.◌∷◌ c s) = suc (text_length s)

-- `text[:n]`
unfoldable pub text_take : ℕ → String → String
text_take zero s = ""
text_take (suc n) String.[] = ""
text_take (suc n) (String.◌∷◌ c s) = String.◌∷◌ c (text_take n s)

abbrev pub truncated_note : String
truncated_note = "\n... [truncated]"

unfoldable pub truncate : String → String
truncate text =
    if leb (text_length text) max_output_chars
    then text
    else String.◌++◌ (text_take max_output_chars text) truncated_note

-- The keys of `registry()`.
abbrev pub validator_names : List String
validator_names =
    "python_probe" ∷ "pytest_check" ∷ "behavior_probe" ∷ "source_check" ∷ "artifact_check"
    ∷ "toolchain_check" ∷ "progress_check" ∷ []

unfoldable pub run_validator : Registry → Json → Fields → Outcome
run_validator checks (str name) args =
    if contains name validator_names then checks.run name args else checks.unknown
run_validator checks _ args = checks.unknown
