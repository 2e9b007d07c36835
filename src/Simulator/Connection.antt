-- ===== src/Simulator/Connection.antt =====
-- `DutRequestHandler.handle` of simulator/simulator.py: one connection, from the bytes that a client
-- sends to the records that are logged, the delays and the frames that are written. DEBUG records
-- are left out. The codec `bytes.decode("utf-8", errors="replace")` and the scanner of `json.loads`
-- are parameters.
pub mod Replies
pub mod Termination
pub mod Evidence
pub mod Service
use flight_test_lab.Prelude.{
  ℕ, zero, suc, ◌+◌, Bool, false, Option, none, some, List, [], ◌∷◌, ◌++◌, length, is_empty, ltb,
  if◌then◌else◌,
}
use flight_test_lab.Prelude.Int.{ℤ, pos, ltb_ℤ, leb_ℤ}
use flight_test_lab.Json.{Json, Fields, str, end, field}
use flight_test_lab.Json.Loads.{Scan}
use flight_test_lab.Simulator.Decode.{decode_request}
use flight_test_lab.Simulator.Protocol.{build_response}
use flight_test_lab.Simulator.Framing.{readline, rstrip}
use flight_test_lab.Simulator.Faults.{FaultConfig}

abbrev pub max_line_bytes : ℕ
max_line_bytes = 1_048_576

pub data Frame : Type 0 where
  -- `json.dumps(response, sort_keys=True)` and a newline
  reply : Fields → Frame
  -- the bytes `this-is-not-json` and a newline
  not_json : Frame

pub data Injected : Type 0 where
  process_termination : ℕ → Injected
  drop_connection : Injected
  delayed_response : ℤ → Injected
  malformed_response : Injected

pub data Effect : Type 0 where
  client_connected client_disconnected : Effect
  request : List ℕ → Effect
  request_too_long : ℕ → Effect
  fault_injected : Injected → Effect
  response : Fields → Effect
  -- `time.sleep`, in milliseconds
  slept : ℤ → Effect
  sent : Frame → Effect

-- How a round of the loop ends: with the next round, by `break`, by `return`, or by `os._exit(1)`.
pub data Control : Type 0 where
  go_on broke returned exited : Control

pub record Turn : Type 0 where
  pub effects : List Effect
  -- `server.request_count`
  pub count : ℕ
  pub control : Control

abbrev pub invalid_json : Fields
invalid_json = field "status" (str "error") (field "error_code" (str "INVALID_JSON") end)

-- `faults.exit_after_requests is not None`, the count under the lock, and the test of the count.
abbrev pub counted : Option ℤ → ℕ → ℕ
counted none count = count
counted (some n) count = count + 1

abbrev pub reached : Option ℤ → ℕ → Bool
reached none count = false
reached (some n) count = leb_ℤ n (pos (count + 1))

abbrev respond_to : Json × Bool → Fields
respond_to (message, decoded) = if decoded then build_response message else invalid_json

-- The effects so far are kept in order; the loop that follows a round depends on how it ended.
after_turn : Turn → Option Turn → Option Turn
after_turn turn rest = elim turn.control [
  | go_on ↦ elim rest [
    | none ↦ none
    | some more ↦ some (record more { effects = turn.effects ++ more.effects })
  ]
  | broke ↦ some (record turn { effects = turn.effects ++ client_disconnected ∷ [] })
  | returned ↦ some turn
  | exited ↦ some turn
]

module _ (decode_utf8 : List ℕ → List ℕ) (scan : List ℕ → Scan) where
  -- `raw_line`
  abbrev pub text_of : List ℕ → List ℕ
  text_of line = rstrip (decode_utf8 line)

  unfoldable pub answer : ℕ → List ℕ → Fields
  answer limit text = respond_to (decode_request limit (scan text))

  -- The delay, then the malformed answer or the true one.
  abbrev delay_effects : ℤ → List Effect
  delay_effects ms =
      if ltb_ℤ (pos 0) ms then fault_injected (delayed_response ms) ∷ slept ms ∷ [] else []

  abbrev answer_effects : Bool → Fields → List Effect
  answer_effects malformed fields =
      if malformed
      then fault_injected malformed_response ∷ sent not_json ∷ []
      else sent (reply fields) ∷ response fields ∷ []

  -- What follows the count of a request.
  unfoldable pub serve : FaultConfig → ℕ → List ℕ → List Effect × Control
  serve faults limit text =
      if faults.drop_connection then (fault_injected drop_connection ∷ [], returned) else (
        delay_effects faults.response_delay_ms
            ++ answer_effects faults.malformed_response (answer limit text),
        go_on,
      )

  -- One round of the loop, for a line that was read.
  unfoldable pub serve_line : FaultConfig → ℕ → ℕ → List ℕ → Turn
  serve_line faults limit count line =
      let served = serve faults limit (text_of line) in
      if ltb max_line_bytes (length (rstrip line))
      then record {
        effects = request_too_long (length line) ∷ sent (reply invalid_json) ∷ [];
        count = count;
        control = broke;
      }
      else if reached faults.exit_after_requests count
      then record {
        effects = request (text_of line) ∷ fault_injected (process_termination (count + 1)) ∷ [];
        count = count + 1;
        control = exited;
      }
      else record {
        effects = request (text_of line) ∷ served.0;
        count = counted faults.exit_after_requests count;
        control = served.1;
      }

  -- `while line := self.rfile.readline(MAX_LINE_BYTES + 2)`; `none` when the fuel runs out.
  unfoldable pub rounds : ℕ → FaultConfig → ℕ → ℕ → List ℕ → Option Turn
  unfolding after_turn
  rounds zero faults limit count stream = none
  rounds (suc fuel) faults limit count stream =
      let line = (readline (max_line_bytes + 2) stream).0 in
      let turn = serve_line faults limit count line in
      let rest = rounds fuel faults limit turn.count (readline (max_line_bytes + 2) stream).1 in
      if is_empty line
      then some (record { effects = client_disconnected ∷ []; count = count; control = go_on })
      else after_turn turn rest

  abbrev connected : Option Turn → Option Turn
  connected none = none
  connected (some turn) = some (record turn { effects = client_connected ∷ turn.effects })

  -- Each round takes a byte, so one round more than the stream has bytes is enough.
  unfoldable pub handle : FaultConfig → ℕ → ℕ → List ℕ → Option Turn
  handle faults limit count stream =
      connected (rounds (suc (length stream)) faults limit count stream)
