-- ===== src/Simulator/Startup.antt =====
-- `main`, `configure_logging` and `run_server` of simulator/simulator.py, from the parsed command
-- line to the effects of the process, in order. Which directories and files can be made and which
-- ports can be bound are parameters.
pub mod Delay
use flight_test_lab.Prelude.{
  ℕ, String, Bool, true, Option, none, some, List, [], ◌∷◌, ◌++◌, ◌||◌, not, is_empty, map,
  if◌then◌else◌,
}
use flight_test_lab.Prelude.Int.{ℤ, pos, ltb_ℤ}
use flight_test_lab.Result.{Result, ok, err}
use flight_test_lab.Simulator.Faults.{FaultConfig, ConfigError, Args, resolve_fault_config}

-- The namespace of `parse_args`; `verbose` only lets DEBUG records through.
pub record Command : Type 0 where
  pub host : String
  pub port : ℤ
  pub log_file : Option String
  pub faults : Args

pub data Event : Type 0 where
  made_parent opened_log : String → Event
  -- the record of `startup_delay` and its `time.sleep`, in milliseconds
  startup_delay slept : ℤ → Event
  dut_ready : String → ℤ → Event
  shutdown_requested : ℕ → Event
  dut_stopped : Bool → Event

pub data Outcome : Type 0 where
  -- the SystemExits
  bad_port : Outcome
  bad_faults : ConfigError → Outcome
  -- the OSErrors
  no_directory no_log not_bound : Outcome
  -- `serve_forever` has not returned
  serving : Outcome
  returned_zero : Outcome

abbrev pub Run : Type 0
Run = List Event × Outcome

abbrev pub after : List Event → Run → Run
after first (rest, outcome) = (first ++ rest, outcome)

abbrev pub is_bad_port : ℤ → Bool
is_bad_port port = ltb_ℤ port (pos 1) || ltb_ℤ (pos 65_535) port

-- `configure_logging`, and what is run after it
unfoldable pub configure_logging : (makes opens : String → Bool) → Option String → Run → Run
configure_logging makes opens none next = next
configure_logging makes opens (some file) next =
    if not (makes file)
    then ([], no_directory)
    else if not (opens file)
    then (made_parent file ∷ [], no_log)
    else after (made_parent file ∷ opened_log file ∷ []) next

-- The signals are the ones that come before the loop has ended; the first of them ends it.
unfoldable pub run_server : (binds : String → ℤ → Bool) → String → ℤ → List ℕ → Run
run_server binds host port signals =
    if not (binds host port)
    then ([], not_bound)
    else if is_empty signals
    then (dut_ready host port ∷ [], serving)
    else (
      dut_ready host port ∷ (map shutdown_requested signals ++ dut_stopped true ∷ []),
      returned_zero,
    )

-- The start-up delay and the server.
unfoldable pub delayed_start : FaultConfig → Run → Run
delayed_start config next =
    if ltb_ℤ (pos 0) config.startup_delay_ms
    then after (startup_delay config.startup_delay_ms ∷ slept config.startup_delay_ms ∷ []) next
    else next

module _ (makes opens : String → Bool) (binds : String → ℤ → Bool) where
  pub start : Command → List ℕ → Result ConfigError FaultConfig → Run
  start command signals (err e) = ([], bad_faults e)
  start command signals (ok config) =
      configure_logging makes opens command.log_file
        (delayed_start config (run_server binds command.host command.port signals))

  unfoldable pub main : ℕ → Command → List ℕ → Run
  unfolding start
  main limit command signals =
      if is_bad_port command.port
      then ([], bad_port)
      else start command signals (resolve_fault_config limit command.faults)
