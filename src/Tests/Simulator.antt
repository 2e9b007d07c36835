-- ===== src/Tests/Simulator.antt =====
-- Concrete requests, command lines and connections of simulator/simulator.py.
use flight_test_lab.Prelude.{
  ℕ, zero, suc, ◌≡◌, ◌↔◌, refl, true, false, none, some, List, [], ◌∷◌, ◌++◌, map, arith, length,
  ltb, All, ap, is_empty, ◌==◌, if◌then◌else◌,
}
use flight_test_lab.Prelude.Int.{pos}
use flight_test_lab.Result.{ok}
use flight_test_lab.Json.{Json, Items, Fields, get}
use flight_test_lab.Json.Loads.{
  Raw, RawItems, RawPairs, Scan, loads, int_of, last_wins, lstrip_minus, build,
}
use flight_test_lab.Simulator.Nesting.{exceeds_nesting_limit, depth, exceeds_nesting_limit-eq-depth}
use flight_test_lab.Simulator.Decode.{
  parse_int, raised_limit, accepted, decode_request, has_long_int, decode_request-eq-accepted,
  decode_request_independent, decode_request-long,
}
use flight_test_lab.Simulator.Protocol.{
  build_response, IsStatusRequest, code_for, named_command, build_response_ok, build_response-obj,
}
use flight_test_lab.Simulator.Faults.{
  FaultConfig, Fault, no_fault, holds, Args, load_fault_config, reject_duplicate_keys,
  resolve_fault_config,
}
use flight_test_lab.Simulator.Faults.Bounds.{IsValid, resolve_fault_config-IsValid}
use flight_test_lab.Simulator.Faults.Choice.{engages, resolve_fault_config-engages}
use flight_test_lab.Simulator.Faults.Manifest.{
  IsAsWritten, IsDistinct, raw_keys, load_fault_config-IsAsWritten, load_fault_config-IsDistinct,
}
use flight_test_lab.Simulator.Startup.{
  Event, Outcome, Command, main, configure_logging, delayed_start, run_server,
}
use flight_test_lab.Simulator.Startup.Delay.{IsStarted, main-IsStarted}
use flight_test_lab.Simulator.Framing.{rstrip}
use flight_test_lab.Simulator.Connection.{Turn, handle}
use flight_test_lab.Simulator.Connection.Replies.{frames, wire, handle_total}
use flight_test_lab.Simulator.Connection.Service.{frame_for, handle-wire}
use flight_test_lab.Simulator.Connection.Evidence.{logged, observed, ending, handle-IsExplained}
use flight_test_lab.Simulator.Connection.Termination.{IsShort, schedule, ends, schedule-ends}

-- {"command": "status", "sequence": 7}
abbrev status_request : Fields
status_request =
    Fields.field "command" (Json.str "status")
      (Fields.field "sequence" (Json.int (pos 7)) Fields.end)

abbrev status_text : Raw
status_text = Raw.obj (
    RawPairs.pair "command" (Raw.str "status")
      (RawPairs.pair "sequence" (Raw.number (b'7' ∷ [])) RawPairs.end))

abbrev two_deep : Json
two_deep = Json.arr (Items.cons (Json.arr Items.nil) Items.nil)

exceeds_nesting_limit-eq-depth_example :
    exceeds_nesting_limit two_deep 1 ≡ some (ltb 1 (depth two_deep))
exceeds_nesting_limit-eq-depth_example = exceeds_nesting_limit-eq-depth two_deep 1

decode_request-eq-accepted_example :
    decode_request 4300 (Scan.tree status_text)
    ≡ accepted (loads (parse_int 4300) last_wins (Scan.tree status_text))
decode_request-eq-accepted_example = decode_request-eq-accepted 4300 (Scan.tree status_text)

decode_request_independent_example :
    decode_request (raised_limit 640) (Scan.tree status_text)
    ≡ decode_request 0 (Scan.tree status_text)
decode_request_independent_example = decode_request_independent 640 (Scan.tree status_text)

-- A run of nines.
nines : ℕ → List ℕ
nines zero = []
nines (suc n) = b'9' ∷ nines n

lstrip_minus-nines : (n : ℕ) → lstrip_minus (nines n) ≡ nines n
unfolding nines lstrip_minus
lstrip_minus-nines zero = refl
lstrip_minus-nines (suc n) = refl

length-nines : (n : ℕ) → length (nines n) ≡ n
unfolding nines
length-nines zero = refl
length-nines (suc n) = ground (arith, length-nines n)

-- An array of one integer of 4301 digits.
abbrev long_text : Raw
long_text = Raw.arr (RawItems.cons (Raw.number (nines 4301)) RawItems.nil)

long_text-IsLong : has_long_int long_text ≡ true
unfolding has_long_int
long_text-IsLong = rw (lstrip_minus-nines 4301, length-nines 4301)

decode_request-long_example : decode_request 0 (Scan.tree long_text) ≡ (Json.null, false)
decode_request-long_example = decode_request-long 0 long_text long_text-IsLong

build_response_ok_example :
    (get "status" (build_response (Json.obj status_request)) ≡ Json.str "ok")
    ↔ IsStatusRequest (Json.obj status_request)
build_response_ok_example = build_response_ok (Json.obj status_request)

build_response-obj_example :
    (get "sequence" (build_response (Json.obj status_request)) ≡ get "sequence" status_request)
    × (get "error_code" (build_response (Json.obj status_request))
        ≡ code_for (get "command" status_request))
    × (get "command" (build_response (Json.obj status_request))
        ≡ named_command (get "command" status_request))
build_response-obj_example = build_response-obj status_request

-- --fault delayed_response --fault-delay-ms 250
abbrev delayed : Args
delayed = record {
  fault = some Fault.delayed_response;
  fault_delay_ms = some (pos 250);
  fault_config = none;
}

abbrev delayed_config : FaultConfig
delayed_config = record no_fault { response_delay_ms = pos 250 }

delayed_runs : resolve_fault_config 4300 delayed ≡ ok delayed_config
unfolding resolve_fault_config
delayed_runs = refl

resolve_fault_config-IsValid_example : IsValid delayed_config
resolve_fault_config-IsValid_example = resolve_fault_config-IsValid 4300 delayed delayed_runs

resolve_fault_config-engages_example : engages Fault.delayed_response delayed_config ≡ true
resolve_fault_config-engages_example =
    resolve_fault_config-engages 4300 delayed Fault.delayed_response refl delayed_runs

-- {"drop_connection": true}
abbrev drop_pairs : RawPairs
drop_pairs = RawPairs.pair "drop_connection" (Raw.bool true) RawPairs.end

abbrev drop_file : Scan
drop_file = Scan.tree (Raw.obj drop_pairs)

abbrev drop_object : Fields
drop_object = Fields.field "drop_connection" (Json.bool true) Fields.end

abbrev drop_config : FaultConfig
drop_config = record no_fault { drop_connection = true }

drop_decodes : loads (int_of 4300) reject_duplicate_keys drop_file ≡ some (Json.obj drop_object)
unfolding loads build reject_duplicate_keys flight_test_lab.Json.keys flight_test_lab.Json.put
drop_decodes = refl

drop_runs : load_fault_config 4300 (holds drop_file) ≡ ok drop_config
unfolding load_fault_config loads build reject_duplicate_keys flight_test_lab.Json.keys
    flight_test_lab.Json.put flight_test_lab.Json.member
drop_runs = refl

load_fault_config-IsAsWritten_example : IsAsWritten drop_object drop_config
load_fault_config-IsAsWritten_example =
    load_fault_config-IsAsWritten 4300 drop_file drop_object drop_decodes drop_runs

load_fault_config-IsDistinct_example : IsDistinct (raw_keys drop_pairs)
load_fault_config-IsDistinct_example = load_fault_config-IsDistinct 4300 drop_pairs drop_runs

-- A codec for ASCII, and a scanner that knows one text.
abbrev ascii : List ℕ → List ℕ
ascii bytes = bytes

abbrev scanner : List ℕ → Scan
scanner [] = Scan.value_error
scanner (b ∷ bytes) = if b == b'?' then Scan.tree status_text else Scan.value_error

abbrev two_lines : List (List ℕ)
two_lines = (b'?' ∷ []) ∷ (b'x' ∷ []) ∷ []

handle_total_example :
    (t : Turn) × (handle ascii scanner drop_config 4300 0 (wire two_lines) ≡ some t)
handle_total_example = handle_total ascii scanner drop_config 4300 0 (wire two_lines)

handle-wire_example :
    (t : Turn) × (handle ascii scanner no_fault 4300 0 (wire two_lines) ≡ some t)
    × (frames t.effects ≡ map (frame_for ascii scanner no_fault 4300) two_lines)
    × (t.count ≡ 0)
handle-wire_example =
    handle-wire ascii scanner no_fault 4300 refl refl 0 two_lines
      (((ground arith, tt), omega arith), (((ground arith, tt), omega arith), tt))

abbrev dropped_run :
    (t : Turn) × (handle ascii scanner drop_config 4300 0 (wire two_lines) ≡ some t)
dropped_run = handle_total ascii scanner drop_config 4300 0 (wire two_lines)

handle-IsExplained_example :
    logged dropped_run.0.effects ≡ observed dropped_run.0.effects ++ ending dropped_run.0.control
handle-IsExplained_example =
    handle-IsExplained ascii scanner drop_config 4300 0 (wire two_lines) dropped_run.1

abbrev armed_config : FaultConfig
armed_config = record no_fault { exit_after_requests = some (pos 2) }

abbrev three_lines : List (List ℕ)
three_lines = (b'?' ∷ b'\n' ∷ []) ∷ (b'x' ∷ b'\n' ∷ []) ∷ (b'?' ∷ b'\n' ∷ []) ∷ []

three_lines-IsShort : All IsShort three_lines
unfolding rstrip
three_lines-IsShort = (ground arith, (ground arith, (ground arith, tt)))

schedule-ends_example :
    (length (schedule ascii scanner armed_config 4300 0 three_lines) ≡ 2)
    × (ends ascii scanner armed_config 4300 (schedule ascii scanner armed_config 4300 0 three_lines)
        ≡ true)
schedule-ends_example =
    schedule-ends ascii scanner armed_config 4300 1 refl 0 three_lines three_lines-IsShort
      (omega arith)

-- --port 9000 --log-file dut.log --fault startup_delay
abbrev late_command : Command
late_command = record {
  host = "127.0.0.1";
  port = pos 9_000;
  log_file = some "dut.log";
  faults = record { fault = some Fault.startup_delay; fault_delay_ms = none; fault_config = none };
}

late_runs : main (λ f. true) (λ f. true) (λ h p. true) 4300 late_command (15 ∷ []) ≡ (
  Event.made_parent "dut.log"
      ∷ Event.opened_log "dut.log"
      ∷ Event.startup_delay (pos 400)
      ∷ Event.slept (pos 400)
      ∷ Event.dut_ready "127.0.0.1" (pos 9_000)
      ∷ Event.shutdown_requested 15
      ∷ Event.dut_stopped true
      ∷ [],
  Outcome.returned_zero,
)
unfolding main configure_logging delayed_start run_server resolve_fault_config
late_runs = refl

main-IsStarted_example :
    (config : FaultConfig) × IsStarted 4300 late_command
      (main (λ f. true) (λ f. true) (λ h p. true) 4300 late_command (15 ∷ [])).0
      config
main-IsStarted_example =
    main-IsStarted (λ f. true) (λ f. true) (λ h p. true) 4300 late_command (15 ∷ [])
      (ap (λ r. is_empty r.0) late_runs)
