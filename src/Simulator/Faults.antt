-- ===== src/Simulator/Faults.antt =====
-- `FaultConfig`, `reject_duplicate_keys`, `load_fault_config` and `resolve_fault_config` of
-- simulator/simulator.py.
pub mod Reads
pub mod Bounds
pub mod Choice
pub mod Manifest
use flight_test_lab.Prelude.{
  ℕ, String, Bool, true, false, not, ◌&&◌, ◌||◌, Option, none, some, List, [], ◌∷◌, str_eq,
  contains, if◌then◌else◌, is_empty,
}
use flight_test_lab.Prelude.Int.{ℤ, pos, ltb_ℤ, eq_ℤ}
use flight_test_lab.Result.{Result, ok, err, ◌>>=◌, ◌>>◌, raise_if}
use flight_test_lab.Json
use flight_test_lab.Json.{
  Json, Fields, null, bool, int, float, str, arr, obj, end, field, member, get, is_null,
}
use flight_test_lab.Json.Loads.{Scan, PairHook, loads, int_of}

abbrev pub max_delay_ms : ℤ
max_delay_ms = pos 86_400_000

abbrev pub default_fault_delay_ms : ℤ
default_fault_delay_ms = pos 400

pub record FaultConfig : Type 0 where
  pub response_delay_ms : ℤ
  pub drop_connection : Bool
  pub malformed_response : Bool
  pub startup_delay_ms : ℤ
  pub exit_after_requests : Option ℤ

-- `FaultConfig()`
abbrev pub no_fault : FaultConfig
no_fault = record {
  response_delay_ms = pos 0;
  drop_connection = false;
  malformed_response = false;
  startup_delay_ms = pos 0;
  exit_after_requests = none;
}

-- `FAULT_NAMES`
pub data Fault : Type 0 where
  delayed_response dropped_connection malformed_response startup_delay process_termination : Fault

abbrev pub fault_config_keys : List String
fault_config_keys =
    "response_delay_ms" ∷ "drop_connection" ∷ "malformed_response" ∷ "startup_delay_ms"
    ∷ "exit_after_requests" ∷ []

-- The reasons of the SystemExits, with the key that each message names.
pub data ConfigError : Type 0 where
  cannot_read not_an_object : ConfigError
  unknown_keys : List String → ConfigError
  not_a_bool not_an_integer negative too_large : String → ConfigError
  zero_exit_count fault_and_config delay_and_config negative_delay delay_too_large : ConfigError
  zero_delay : Fault → ConfigError

-- One round of the loop of `reject_duplicate_keys`.
unfoldable pub reject_duplicate_keys : PairHook
reject_duplicate_keys seen key value =
    if contains key (Json.keys seen) then none else some (Json.put key value seen)

-- What is at the path of `--fault-config`.
pub data ConfigFile : Type 0 where
  unreadable : ConfigFile
  holds : Scan → ConfigFile

-- `set(data) - _FAULT_CONFIG_KEYS`
pub unknown : List String → List String
unknown [] = []
unknown (k ∷ ks) = if contains k fault_config_keys then unknown ks else k ∷ unknown ks

-- `_bool(key)`
pub bool_field : Fields → String → Result ConfigError Bool
bool_field data_ key = elim (member key data_) [
  | none ↦ ok false
  | some value ↦ elim value [ bool b ↦ ok b | _ ↦ err (not_a_bool key) ]
]

-- `key.endswith(suffix)`
ends_with : String → String → Bool
ends_with suffix String.[] = str_eq String.[] suffix
ends_with suffix (String.◌∷◌ c s) = str_eq (String.◌∷◌ c s) suffix || ends_with suffix s

in_range : String → ℤ → Result ConfigError (Option ℤ)
in_range key value = do
  raise_if (ltb_ℤ value (pos 0)) (negative key)
  raise_if (ends_with "_ms" key && ltb_ℤ max_delay_ms value) (too_large key)
  ok (some value)

-- `_int(key, allow_none=…)`
pub int_field : Fields → String → Bool → Result ConfigError (Option ℤ)
unfolding in_range ends_with
int_field data_ key allow_none = elim (get key data_) [
  | null ↦ ok (if allow_none then none else some (pos 0))
  | int value ↦ in_range key value
  | _ ↦ err (not_an_integer key)
]

-- `value or 0`
abbrev pub or_zero : Option ℤ → ℤ
or_zero none = pos 0
or_zero (some n) = n

abbrev pub below_one : Option ℤ → Bool
below_one none = false
below_one (some n) = ltb_ℤ n (pos 1)

-- `load_fault_config` from the decoded object.
pub config_of : Fields → Result ConfigError FaultConfig
unfolding int_field bool_field unknown
config_of data_ = do
  raise_if (not (is_empty (unknown (Json.keys data_)))) (unknown_keys (unknown (Json.keys data_)))
  exit_after ← int_field data_ "exit_after_requests" true
  raise_if (below_one exit_after) zero_exit_count
  response_delay ← int_field data_ "response_delay_ms" false
  drop ← bool_field data_ "drop_connection"
  malformed ← bool_field data_ "malformed_response"
  startup ← int_field data_ "startup_delay_ms" false
  ok (record {
    response_delay_ms = or_zero response_delay;
    drop_connection = drop;
    malformed_response = malformed;
    startup_delay_ms = or_zero startup;
    exit_after_requests = exit_after;
  })

from_loaded : Option Json → Result ConfigError FaultConfig
unfolding config_of
from_loaded none = err cannot_read
from_loaded (some (obj data_)) = config_of data_
from_loaded (some _) = err not_an_object

-- The `limit` is the interpreter's, for `json.loads` without a `parse_int`.
unfoldable pub load_fault_config : ℕ → ConfigFile → Result ConfigError FaultConfig
unfolding from_loaded
load_fault_config limit unreadable = err cannot_read
load_fault_config limit (holds text) = from_loaded (loads (int_of limit) reject_duplicate_keys text)

-- The parsed command line, as far as the faults go.
pub record Args : Type 0 where
  pub fault : Option Fault
  pub fault_delay_ms : Option ℤ
  pub fault_config : Option ConfigFile

abbrev pub is_given {ℓ} : {A : Type ℓ} → Option A → Bool
is_given none = false
is_given (some a) = true

abbrev pub needs_delay : Option Fault → Bool
needs_delay (some delayed_response) = true
needs_delay (some startup_delay) = true
needs_delay _ = false

-- `presets[args.fault]`, and `FaultConfig()` without a fault
abbrev pub preset : ℤ → Option Fault → FaultConfig
preset delay none = no_fault
preset delay (some delayed_response) = record no_fault { response_delay_ms = delay }
preset delay (some dropped_connection) = record no_fault { drop_connection = true }
preset delay (some malformed_response) = record no_fault { malformed_response = true }
preset delay (some startup_delay) = record no_fault { startup_delay_ms = delay }
preset delay (some process_termination) = record no_fault { exit_after_requests = some (pos 1) }

abbrev named : Option Fault → Fault
named none = delayed_response
named (some f) = f

abbrev pub chosen_delay : Option ℤ → ℤ
chosen_delay none = default_fault_delay_ms
chosen_delay (some n) = n

from_command_line : Option Fault → ℤ → Result ConfigError FaultConfig
from_command_line fault delay = do
  raise_if (ltb_ℤ delay (pos 0)) negative_delay
  raise_if (ltb_ℤ max_delay_ms delay) delay_too_large
  raise_if (needs_delay fault && eq_ℤ delay (pos 0)) (zero_delay (named fault))
  ok (preset delay fault)

unfoldable pub resolve_fault_config : ℕ → Args → Result ConfigError FaultConfig
unfolding from_command_line
resolve_fault_config limit args = elim args.fault_config [
  | none ↦ from_command_line args.fault (chosen_delay args.fault_delay_ms)
  | some file ↦ do
    raise_if (is_given args.fault) fault_and_config
    raise_if (is_given args.fault_delay_ms) delay_and_config
    load_fault_config limit file
]
