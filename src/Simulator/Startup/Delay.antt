-- ===== src/Simulator/Startup/Delay.antt =====
-- What a DUT process that leaves a trace was given, and how long it waits before it is ready.
use flight_test_lab.Prelude.{
  ℕ, Bool, ◌+◌, String, ◌≡◌, refl, true, false, Option, none, some, List, [], ◌∷◌, is_empty, arith,
  inl, inr, Bool-cases,
}
use flight_test_lab.Prelude.Int.{ℤ, pos, negsuc, pos_part, ltb_ℤ, ◌≤ℤ◌}
use flight_test_lab.Result.{Result, ok, err}
use flight_test_lab.Simulator.Faults.{FaultConfig, ConfigError, resolve_fault_config}
use flight_test_lab.Simulator.Faults.Bounds.{IsValid, resolve_fault_config-IsValid}
use flight_test_lab.Simulator.Startup.{
  Event, slept, dut_ready, Run, Command, is_bad_port, configure_logging, run_server, delayed_start,
  start, main,
}

-- The milliseconds slept before the first `dut_ready`, in a run that gets there.
abbrev pub slept_before : List Event → Option ℕ
slept_before [] = none
slept_before (dut_ready host port ∷ events) = some 0
slept_before (slept ms ∷ events) = elim (slept_before events) [
  | none ↦ none
  | some n ↦ some (pos_part ms + n)
]
slept_before (_ ∷ events) = slept_before events

-- A run that gets ready does so after this delay.
abbrev pub IsDue : ℤ → Option ℕ → Type 0
IsDue delay none = Unit
IsDue delay (some n) = pos n ≡ delay

pub record IsStarted (limit : ℕ) (command : Command) (events : List Event) (config : FaultConfig)
    : Type 0 where
  pub port_low : pos 1 ≤ℤ command.port
  pub port_high : command.port ≤ℤ pos 65_535
  pub resolved : resolve_fault_config limit command.faults ≡ ok config
  pub valid : IsValid config
  pub due : IsDue config.startup_delay_ms (slept_before events)

run_server-IsDue :
    (binds : String → ℤ → Bool) (host : String) (port : ℤ) (signals : List ℕ)
    → IsDue (pos 0) (slept_before (run_server binds host port signals).0)
unfolding run_server
run_server-IsDue binds host port signals = elim (Bool-cases (binds host port)) [
  | inl bound ↦ elim (Bool-cases (is_empty signals)) [
    | inl none_yet ↦ rw (bound, none_yet) refl
    | inr stopped ↦ rw (bound, stopped) refl
  ]
  | inr refused ↦ rw refused tt
]

IsDue-slept :
    (ms : ℤ) (o : Option ℕ)
    → pos 0 ≤ℤ ms
    → IsDue (pos 0) o
    → IsDue ms (elim o [ none ↦ none | some n ↦ some (pos_part ms + n) ])
IsDue-slept ms none low h = tt
IsDue-slept (pos m) (some n) low h = ground arith
IsDue-slept (negsuc m) (some n) low h = ground arith

no_delay : (delay : ℤ) → pos 0 ≤ℤ delay → ltb_ℤ (pos 0) delay ≡ false → delay ≡ pos 0
no_delay (pos n) low h = ground arith
no_delay (negsuc n) low h = ground arith

delayed_start-IsDue :
    (config : FaultConfig) (next : Run)
    → IsValid config
    → IsDue (pos 0) (slept_before next.0)
    → IsDue config.startup_delay_ms (slept_before (delayed_start config next).0)
unfolding delayed_start
delayed_start-IsDue config next valid h =
    elim (Bool-cases (ltb_ℤ (pos 0) config.startup_delay_ms)) [
      | inl late ↦
          rw late (IsDue-slept config.startup_delay_ms (slept_before next.0) valid.startup_low h)
      | inr prompt ↦ rw (prompt, no_delay config.startup_delay_ms valid.startup_low prompt) h
    ]

configure_logging-IsDue :
    (makes opens : String → Bool) (file : Option String) (next : Run) (delay : ℤ)
    → IsDue delay (slept_before next.0)
    → IsDue delay (slept_before (configure_logging makes opens file next).0)
unfolding configure_logging
configure_logging-IsDue makes opens none next delay h = h
configure_logging-IsDue makes opens (some file) next delay h = elim (Bool-cases (makes file)) [
  | inl made ↦ elim (Bool-cases (opens file)) [
    | inl opened ↦ rw (made, opened) h
    | inr closed ↦ rw (made, closed) tt
  ]
  | inr absent ↦ rw absent tt
]

module _ (makes opens : String → Bool) (binds : String → ℤ → Bool) (limit : ℕ) (command : Command)
    (signals : List ℕ) where
  from_config :
      (r : Result ConfigError FaultConfig)
      → is_bad_port command.port ≡ false
      → resolve_fault_config limit command.faults ≡ r
      → is_empty (start makes opens binds command signals r).0 ≡ false
      → (config : FaultConfig) × IsStarted limit command
          (start makes opens binds command signals r).0
          config
  unfolding start
  from_config (err e) port resolved h = cc
  from_config (ok config) port resolved h =
      let valid = resolve_fault_config-IsValid limit command.faults resolved in
      let served = run_server-IsDue binds command.host command.port signals in
      (
        config,
        record {
          port_low = ground arith;
          port_high = ground arith;
          resolved = resolved;
          valid = valid;
          due =
              configure_logging-IsDue makes opens command.log_file _ config.startup_delay_ms
                (delayed_start-IsDue config _ valid served);
        },
      )

  -- A DUT process that leaves any trace, be it the log's directory, was given a port from 1 to 65535
  -- and a fault configuration that was accepted and is in bounds; and if it gets ready, it has slept
  -- exactly the start-up delay of that configuration before.
  pub main-IsStarted :
      is_empty (main makes opens binds limit command signals).0 ≡ false
      → (config : FaultConfig) × IsStarted limit command
          (main makes opens binds limit command signals).0
          config
  unfolding main
  main-IsStarted h = elim (Bool-cases (is_bad_port command.port)) [
    | inl bad ↦ let nothing : true ≡ false = rw (bad, main) at h in cc
    | inr good ↦ rw good (from_config _ good refl (rw (good, main) at h))
  ]
