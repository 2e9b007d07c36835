-- ===== src/Client/Exchange.antt =====
-- `LabClient.request` of src/testlab/client.py against `DutRequestHandler.handle` of
-- simulator/simulator.py.
use flight_test_lab.Prelude.{
  ltb, suc, ◌+◌, ◌*◌, ◌^◌, Bool, if◌then◌else◌, ◌≡◌, ℕ, String, true, false, Option, none, some,
  List, [], ◌∷◌, ◌++◌,
}
use flight_test_lab.Prelude.Int.{pos, negsuc, pos_part}
use flight_test_lab.Json.{Json, Fields, Float, get}
use flight_test_lab.Json.Loads.{Scan, loads, int_of, last_wins}
use flight_test_lab.Simulator.Decode.{decode_request}
use flight_test_lab.Simulator.Faults.{FaultConfig}
use flight_test_lab.Simulator.Connection.{Effect, Frame, reply, not_json, Turn, handle, text_of}
use flight_test_lab.Client.{Answer, line, failed}

-- The same entries under every key: `sort_keys` changes the order alone.
abbrev pub SameEntries : Fields → Fields → Type 0
SameEntries fs gs = (key : String) → get key fs ≡ get key gs

-- The bytes of `this-is-not-json`.
abbrev pub not_json_text : List ℕ
not_json_text =
    b't' ∷ b'h' ∷ b'i' ∷ b's' ∷ b'-' ∷ b'i' ∷ b's' ∷ b'-' ∷ b'n' ∷ b'o' ∷ b't' ∷ b'-' ∷ b'j' ∷ b's'
    ∷ b'o' ∷ b'n' ∷ []

-- Whether some milliseconds are less than a number of seconds.
abbrev pub is_within : Float → ℕ → Bool
is_within (Float.dyadic (pos m) (pos e)) ms = ltb ms (1000 * m * 2 ^ e)
is_within (Float.dyadic (pos m) (negsuc e)) ms = ltb (ms * 2 ^ suc e) (1000 * m)
is_within Float.infinity ms = true
is_within _ ms = false

module _ (dumps : Fields → List ℕ) (scan : List ℕ → Scan) (decode_utf8 : List ℕ → List ℕ) where
  -- A frame as the line that the client reads.
  unfoldable pub line_of : Frame → List ℕ
  line_of (reply fs) = dumps fs ++ b'\n' ∷ []
  line_of not_json = not_json_text ++ b'\n' ∷ []

  abbrev pub answer_in : Bool → Frame → Answer
  answer_in in_time f = if in_time then line (line_of f) else failed

  -- The first frame, after the milliseconds that have passed and the ones that the DUT sleeps before
  -- it. A read that takes the timeout raises a TimeoutError; after the last effect the DUT closes.
  unfoldable pub first_answer : Float → ℕ → List Effect → Answer
  first_answer timeout ms [] = line []
  first_answer timeout ms (Effect.slept more ∷ es) = first_answer timeout (ms + pos_part more) es
  first_answer timeout ms (Effect.sent f ∷ es) = answer_in (is_within timeout ms) f
  first_answer timeout ms (Effect.client_connected ∷ es) = first_answer timeout ms es
  first_answer timeout ms (_ ∷ es) = first_answer timeout ms es

  abbrev pub answer_of : Float → ℕ → Option Turn → Answer
  answer_of timeout latency none = failed
  answer_of timeout latency (some turn) = first_answer timeout latency turn.effects

  -- A DUT with its faults, as the peer of a client; the latency is the milliseconds that an exchange
  -- takes besides the sleep of the DUT.
  unfoldable pub dut : FaultConfig → ℕ → ℕ → Float → List ℕ → Answer
  unfolding line_of
  dut faults limit latency timeout sent =
      answer_of timeout latency (handle decode_utf8 scan faults limit 0 sent)

  -- What the documentation of `json` says of a round: the text of an object reads as its entries, to the
  -- DUT and to the client.
  pub record RoundTrips (limit : ℕ) (fs : Fields) : Type 0 where
    pub sent_as : Fields
    pub sent :
        decode_request limit (scan (text_of decode_utf8 scan (dumps fs ++ b'\n' ∷ [])))
        ≡ (Json.obj sent_as, true)
    pub sent_entries : SameEntries sent_as fs

  pub record ReadsBack (limit : ℕ) (fs : Fields) : Type 0 where
    pub read_as : Fields
    pub some_text : (c : ℕ) × (cs : List ℕ) × (dumps fs ++ b'\n' ∷ [] ≡ c ∷ cs)
    pub read :
        loads (int_of limit) last_wins (scan (dumps fs ++ b'\n' ∷ [])) ≡ some (Json.obj read_as)
    pub read_entries : SameEntries read_as fs

  module _ (faults : FaultConfig) (limit client_limit latency : ℕ) (fs : Fields)
      (kept : faults.drop_connection ≡ false) (lasting : faults.exit_after_requests ≡ none)
      (true_ : faults.malformed_response ≡ false) where
    -- Whether the answer comes before the timeout.
    abbrev pub in_time : Float → Bool
    in_time timeout = is_within timeout (latency + pos_part faults.response_delay_ms)
