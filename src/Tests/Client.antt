-- ===== src/Tests/Client.antt =====
-- A concrete client of src/testlab/client.py and its DUT. The encoder and the scanner are of the size
-- that one message needs.
use flight_test_lab.Prelude.{ℕ, true, false, List, [], ◌∷◌, ◌==◌, if◌then◌else◌}
use flight_test_lab.Prelude.Int.{pos, negsuc}
use flight_test_lab.Json.{Json, Fields, Float, get}
use flight_test_lab.Json.Loads.{Raw, RawPairs, Scan}
use flight_test_lab.Simulator.Faults.{FaultConfig, no_fault}
use flight_test_lab.Client.{LabClient, Answer, Round, wait_until_ready}
use flight_test_lab.Client.Waiting.{Ends, wait_until_ready-Ends}

-- One byte stands for each text: `s` for the status request, `r` for its answer.
abbrev dumps : Fields → List ℕ
dumps fs = elim (get "command" fs) [ Json.str c ↦ b's' ∷ [] | _ ↦ b'r' ∷ [] ]

abbrev scan : List ℕ → Scan
scan [] = Scan.value_error
scan (b ∷ bs) =
    if b == b's'
    then Scan.tree (
        Raw.obj (
          RawPairs.pair "command" (Raw.str "status")
            (RawPairs.pair "sequence" (Raw.number (b'0' ∷ [])) RawPairs.end)))
    else Scan.tree (
        Raw.obj (
          RawPairs.pair "status" (Raw.str "ok") (
            RawPairs.pair "state" (Raw.str "READY")
              (RawPairs.pair "sequence" (Raw.number (b'0' ∷ [])) RawPairs.end))))

abbrev client : LabClient
client = record {
  host = "localhost";
  port = pos 9000;
  connect_timeout = Float.infinity;
  -- half a second
  response_timeout = Float.dyadic (pos 1) (negsuc 0);
  has_socket = true;
  has_reader = true;
}

abbrev rounds : List Round
rounds =
    record { now = 0; reachable = false; peer = λ timeout sent. Answer.failed }
    ∷ record { now = 1; reachable = true; peer = λ timeout sent. Answer.line (b'r' ∷ b'\n' ∷ []) }
    ∷ record { now = 9; reachable = false; peer = λ timeout sent. Answer.failed }
    ∷ []

wait_until_ready-Ends_example :
    Ends dumps 4300 scan client.response_timeout 5 rounds
      (wait_until_ready dumps 4300 scan Float.infinity Float.infinity 5 rounds client)
wait_until_ready-Ends_example =
    wait_until_ready-Ends dumps 4300 scan Float.infinity Float.infinity 5 rounds client

abbrev same : List ℕ → List ℕ
same bytes = bytes

-- A delay of 400 ms is within the timeout, with 20 ms for the rest.
abbrev slow_fault : FaultConfig
slow_fault = record no_fault { response_delay_ms = pos 400 }
