-- ===== src/Simulator/Faults/Reads.antt =====
-- What `load_fault_config` did with an object that it accepted: each field was read, in the code's
-- order, and no guard refused it.
use flight_test_lab.Prelude.{◌≡◌, refl, Bool, true, false, not, Option}
use flight_test_lab.Prelude.{is_empty}
use flight_test_lab.Prelude.Int.{ℤ}
use flight_test_lab.Result.{ok, >>=-eq-ok, raise_if-eq-ok}
use flight_test_lab.Json
use flight_test_lab.Json.{Fields}
use flight_test_lab.Simulator.Faults.{
  FaultConfig, unknown, bool_field, int_field, or_zero, below_one, config_of,
}

-- What `config_of` did when it raised nothing: each field was read, in the code's order.
pub record Reads (fs : Fields) (c : FaultConfig) : Type 0 where
  pub no_unknown : is_empty (unknown (Json.keys fs)) ≡ true
  pub exit_read : int_field fs "exit_after_requests" true ≡ ok c.exit_after_requests
  pub exit_count : below_one c.exit_after_requests ≡ false
  pub response : Option ℤ
  pub response_read : int_field fs "response_delay_ms" false ≡ ok response
  pub response_is : c.response_delay_ms ≡ or_zero response
  pub drop_read : bool_field fs "drop_connection" ≡ ok c.drop_connection
  pub malformed_read : bool_field fs "malformed_response" ≡ ok c.malformed_response
  pub startup : Option ℤ
  pub startup_read : int_field fs "startup_delay_ms" false ≡ ok startup
  pub startup_is : c.startup_delay_ms ≡ or_zero startup

not-eq-false : (b : Bool) → not b ≡ false → b ≡ true
not-eq-false true h = refl
not-eq-false false h = cc

pub config_of-Reads : (fs : Fields) {c : FaultConfig} → config_of fs ≡ ok c → Reads fs c
unfolding config_of
config_of-Reads fs {c} h =
    let (known, h₁) = raise_if-eq-ok _ _ _ {b = c} h in
    let (exit, exit_eq, h₂) = >>=-eq-ok _ _ h₁ in
    let (positive, h₃) = raise_if-eq-ok _ _ _ h₂ in
    let (response, response_eq, h₄) = >>=-eq-ok _ _ h₃ in
    let (drop, drop_eq, h₅) = >>=-eq-ok _ _ h₄ in
    let (malformed, malformed_eq, h₆) = >>=-eq-ok _ _ h₅ in
    let (startup, startup_eq, h₇) = >>=-eq-ok _ _ h₆ in
    let same : record {
      response_delay_ms = or_zero response;
      drop_connection = drop;
      malformed_response = malformed;
      startup_delay_ms = or_zero startup;
      exit_after_requests = exit;
    }
        ≡ c =
      cc h₇ in
    rw (← same) (record {
      no_unknown = not-eq-false _ known;
      exit_read = exit_eq;
      exit_count = positive;
      response = response;
      response_read = response_eq;
      response_is = refl;
      drop_read = drop_eq;
      malformed_read = malformed_eq;
      startup = startup;
      startup_read = startup_eq;
      startup_is = refl;
    })
