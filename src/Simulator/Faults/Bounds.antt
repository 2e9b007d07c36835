-- ===== src/Simulator/Faults/Bounds.antt =====
-- What every accepted fault configuration satisfies, and that it says what was written or asked for.
use flight_test_lab.Prelude.{
  ℕ, String, ◌≡◌, refl, inl, inr, true, false, Option, none, some, arith, Option-cases,
}
use flight_test_lab.Prelude.Int.{ℤ, pos, ltb_ℤ, ◌≤ℤ◌}
use flight_test_lab.Result.{Result, ok, raise_if-eq-ok}
use flight_test_lab.Json.{Json, Fields, null, obj}
use flight_test_lab.Simulator.Faults.Reads.{config_of-Reads}
use flight_test_lab.Simulator.Faults.{
  FaultConfig, Fault, ConfigError, ConfigFile, Args, max_delay_ms, int_field, or_zero, below_one,
  config_of, from_loaded, load_fault_config, from_command_line, resolve_fault_config, preset,
  chosen_delay, ends_with, unreadable, holds, is_given, fault_and_config, delay_and_config,
}

abbrev pub IsCount : Option ℤ → Type 0
IsCount none = Unit
IsCount (some n) = pos 1 ≤ℤ n

-- The delays are from 0 to a day, and a termination count is at least 1.
pub record IsValid (c : FaultConfig) : Type 0 where
  pub response_low : pos 0 ≤ℤ c.response_delay_ms
  pub response_high : c.response_delay_ms ≤ℤ max_delay_ms
  pub startup_low : pos 0 ≤ℤ c.startup_delay_ms
  pub startup_high : c.startup_delay_ms ≤ℤ max_delay_ms
  pub count : IsCount c.exit_after_requests

-- A delay that `_int` lets through is in range.
delay_in_range :
    (fs : Fields) (key : String) {o : Option ℤ}
    → ends_with "_ms" key ≡ true
    → int_field fs key false ≡ ok o
    → (pos 0 ≤ℤ or_zero o) × (or_zero o ≤ℤ max_delay_ms)
unfolding int_field
delay_in_range fs key e h = ground arith

IsCount-in_range :
    (fs : Fields) (key : String) {o : Option ℤ}
    → int_field fs key true ≡ ok o
    → below_one o ≡ false
    → IsCount o
unfolding int_field
IsCount-in_range fs key {o = none} h b = tt
IsCount-in_range fs key {o = some n} h b = ground arith

config_of-IsValid : (fs : Fields) {c : FaultConfig} → config_of fs ≡ ok c → IsValid c
unfolding ends_with
config_of-IsValid fs {c} h =
    let r = config_of-Reads fs h in
    let response_range = delay_in_range fs "response_delay_ms" refl r.response_read in
    let startup_range = delay_in_range fs "startup_delay_ms" refl r.startup_read in
    record {
      response_low = rw r.response_is response_range.0;
      response_high = rw r.response_is response_range.1;
      startup_low = rw r.startup_is startup_range.0;
      startup_high = rw r.startup_is startup_range.1;
      count = IsCount-in_range fs "exit_after_requests" r.exit_read r.exit_count;
    }

from_loaded-IsValid : (o : Option Json) {c : FaultConfig} → from_loaded o ≡ ok c → IsValid c
unfolding from_loaded
from_loaded-IsValid none h = cc
from_loaded-IsValid (some (obj fs)) h = config_of-IsValid fs h
from_loaded-IsValid (some null) h = cc
from_loaded-IsValid (some _) h = cc

load_fault_config-IsValid :
    (limit : ℕ) (file : ConfigFile) {c : FaultConfig}
    → load_fault_config limit file ≡ ok c
    → IsValid c
unfolding load_fault_config
load_fault_config-IsValid limit unreadable h = cc
load_fault_config-IsValid limit (holds text) h = from_loaded-IsValid _ h

preset_bounds :
    (fault : Option Fault) (delay : ℤ)
    → pos 0 ≤ℤ delay
    → delay ≤ℤ max_delay_ms
    → IsValid (preset delay fault)
preset_bounds none delay low high = omega arith
preset_bounds (some Fault.delayed_response) delay low high = omega arith
preset_bounds (some _) delay low high = omega arith

preset-IsValid :
    (fault : Option Fault) (delay : ℤ) {c : FaultConfig}
    → ltb_ℤ delay (pos 0) ≡ false
    → ltb_ℤ max_delay_ms delay ≡ false
    → ◌≡◌ {A = Result ConfigError FaultConfig} (ok (preset delay fault)) (ok c)
    → IsValid c
preset-IsValid fault delay {c} low high h =
    let same : preset delay fault ≡ c = cc in
    rw (← same) (preset_bounds fault delay (ground arith) (ground arith))

from_command_line-IsValid :
    (fault : Option Fault) (delay : ℤ) {c : FaultConfig}
    → from_command_line fault delay ≡ ok c
    → IsValid c
unfolding from_command_line
from_command_line-IsValid fault delay {c} h =
    let (low, h₁) = raise_if-eq-ok _ _ _ {b = c} h in
    let (high, h₂) = raise_if-eq-ok _ _ _ h₁ in
    let (positive, h₃) = raise_if-eq-ok _ _ _ h₂ in preset-IsValid fault delay low high h₃

-- Whatever the command line and the file hold, a configuration that is not refused has both delays
-- between 0 and a day and a termination count, if any, of at least 1.
pub resolve_fault_config-IsValid :
    (limit : ℕ) (args : Args) {c : FaultConfig} → resolve_fault_config limit args ≡ ok c → IsValid c
unfolding resolve_fault_config
resolve_fault_config-IsValid limit args {c} h = elim (Option-cases args.fault_config) [
  | inl absent ↦
      from_command_line-IsValid args.fault (chosen_delay args.fault_delay_ms)
        (rw (absent, resolve_fault_config) at h)
  | inr (file, given) ↦
      let (alone, h₁) =
        raise_if-eq-ok (is_given args.fault) fault_and_config _ {b = c}
          (rw (given, resolve_fault_config) at h) in
      let (plain, h₂) = raise_if-eq-ok (is_given args.fault_delay_ms) delay_and_config _ h₁ in
      load_fault_config-IsValid limit file h₂
]
