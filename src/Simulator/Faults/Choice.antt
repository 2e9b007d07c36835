-- ===== src/Simulator/Faults/Choice.antt =====
-- The command line describes the run: a fault that is asked for is the fault that is configured.
use flight_test_lab.Prelude.{ℕ, ◌≡◌, Bool, true, false, Option, none, some, arith}
use flight_test_lab.Prelude.Int.{ℤ, pos, ltb_ℤ}
use flight_test_lab.Result.{ok}
use flight_test_lab.Simulator.Faults.{
  FaultConfig, Fault, Args, from_command_line, resolve_fault_config, chosen_delay,
}

abbrev pub counts : Option ℤ → Bool
counts none = false
counts (some n) = true

-- Whether the handler and `main` would act on a fault: the tests that they make of the fields.
abbrev pub engages : Fault → FaultConfig → Bool
engages Fault.delayed_response c = ltb_ℤ (pos 0) c.response_delay_ms
engages Fault.dropped_connection c = c.drop_connection
engages Fault.malformed_response c = c.malformed_response
engages Fault.startup_delay c = ltb_ℤ (pos 0) c.startup_delay_ms
engages Fault.process_termination c = counts c.exit_after_requests

abbrev pub same_fault : Fault → Fault → Bool
same_fault Fault.delayed_response Fault.delayed_response = true
same_fault Fault.dropped_connection Fault.dropped_connection = true
same_fault Fault.malformed_response Fault.malformed_response = true
same_fault Fault.startup_delay Fault.startup_delay = true
same_fault Fault.process_termination Fault.process_termination = true
same_fault f g = false

abbrev pub asked_for : Option Fault → Fault → Bool
asked_for none g = false
asked_for (some f) g = same_fault f g

from_command_line-engages :
    (fault : Option Fault) (delay : ℤ) (g : Fault) {c : FaultConfig}
    → from_command_line fault delay ≡ ok c
    → engages g c ≡ asked_for fault g
unfolding from_command_line
from_command_line-engages none delay Fault.delayed_response h = ground arith
from_command_line-engages none delay _ h = ground arith
from_command_line-engages (some Fault.delayed_response) delay Fault.delayed_response h =
    ground arith
from_command_line-engages (some _) delay _ h = ground arith

-- Without a manifest, an accepted command line engages the fault that it names, with whatever delay,
-- and engages no other.
pub resolve_fault_config-engages :
    (limit : ℕ) (args : Args) (g : Fault) {c : FaultConfig}
    → args.fault_config ≡ none
    → resolve_fault_config limit args ≡ ok c
    → engages g c ≡ asked_for args.fault g
unfolding resolve_fault_config
resolve_fault_config-engages limit args g e h =
    from_command_line-engages args.fault (chosen_delay args.fault_delay_ms) g
      (rw (e, resolve_fault_config) at h)
