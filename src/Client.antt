-- ===== src/Client.antt =====
-- src/testlab/client.py: `LabClient`, the client that tests talk to the DUT with. The network, the clock
-- and the encoder of `json.dumps(message, sort_keys=True)` are parameters.
pub mod Waiting
pub mod Exchange
use flight_test_lab.Prelude.{
  ℕ, zero, suc, String, Bool, true, false, not, ◌&&◌, ◌||◌, Option, none, some, List, [], ◌∷◌, ◌++◌,
  str_eq, ltb, if◌then◌else◌,
}
use flight_test_lab.Prelude.Int.{ℤ, pos, negsuc, ltb_ℤ}
use flight_test_lab.Result.{Result, ok, err}
use flight_test_lab.Exec.{Exec, ◌>>=◌, ◌>>◌, pure, when}
use flight_test_lab.Json.{Json, Fields, Float, get, str, int, field, end}
use flight_test_lab.Json.Loads.{Scan, loads, int_of, last_wins}
use flight_test_lab.Curriculum.{is_text}

-- The messages of a LabCommunicationError.
pub data Failure : Type 0 where
  unreachable not_connected request_failed closed invalid_json not_an_object : Failure

-- What the methods raise. A reply that is no UTF-8 raises a UnicodeDecodeError in `readline`.
pub data Raised : Type 0 where
  communication : Failure → Raised
  value_error timeout_error unicode_error : Raised

pub record LabClient : Type 0 where
  pub host : String
  pub port : ℤ
  pub connect_timeout : Float
  pub response_timeout : Float
  -- whether `_socket` and `_reader` are not `None`
  pub has_socket : Bool
  pub has_reader : Bool

-- `value <= 0`; no comparison with a NaN holds
abbrev pub is_nonpositive : Float → Bool
is_nonpositive (Float.dyadic (pos (suc m)) e) = false
is_nonpositive (Float.dyadic m e) = true
is_nonpositive Float.neg_infinity = true
is_nonpositive Float.infinity = false
is_nonpositive Float.nan = false

-- `LabClient(host, port, …)`
unfoldable pub new_client : String → ℤ → Float → Float → Result Raised LabClient
new_client host port connect_timeout response_timeout =
    if str_eq host "" || ltb_ℤ port (pos 1) || ltb_ℤ (pos 65535) port
    then err value_error
    else if is_nonpositive connect_timeout || is_nonpositive response_timeout
    then err value_error
    else ok (record {
      host = host;
      port = port;
      connect_timeout = connect_timeout;
      response_timeout = response_timeout;
      has_socket = false;
      has_reader = false;
    })

abbrev pub is_connected : LabClient → Bool
is_connected c = c.has_socket && c.has_reader

unfoldable pub close : LabClient → LabClient
close c = record c { has_socket = false; has_reader = false }

abbrev pub Method : Type 0 → Type 0
Method = Exec Raised LabClient

-- `connect`; the test says whether the peer can be connected to.
unfoldable pub connect : Bool → Method (Unit {0})
unfolding close
connect reachable c =
    if is_connected c
    then (ok tt, c)
    else if reachable
    then (ok tt, record c { has_socket = true; has_reader = true })
    else (err (communication unreachable), close c)

-- What comes back for the bytes that were sent, where the read of it ends: an OSError or a timeout, a
-- line that is no UTF-8, or the characters of a line, none where the peer has closed.
pub data Answer : Type 0 where
  failed undecodable : Answer
  line : List ℕ → Answer

abbrev pub payload_of : Option Json → Result Raised Fields
payload_of none = err (communication invalid_json)
payload_of (some (Json.obj fs)) = ok fs
payload_of (some _) = err (communication not_an_object)

-- One turn of the loop of `wait_until_ready`: the clock, and how the network behaves in it.
pub record Round : Type 0 where
  pub now : ℕ
  pub reachable : Bool
  pub peer : Float → List ℕ → Answer

abbrev pub status_message : Fields
status_message = field "command" (str "status") (field "sequence" (int (pos 0)) end)

-- The client after a turn: the `except` closes it.
unfoldable pub left_by : Result Raised Bool × LabClient → LabClient
unfolding close
left_by (err (communication why), c) = close c
left_by (r, c) = c

-- How a turn ends the loop, or what the rest of it does.
abbrev pub turn_end :
    LabClient
    → Bool
    → Result Raised Bool × LabClient
    → Option (Result Raised (Unit {0}) × LabClient)
    → Option (Result Raised (Unit {0}) × LabClient)
turn_end c false tried rest = some (err timeout_error, c)
turn_end c true (ok true, c') rest = some (ok tt, c')
turn_end c true (ok false, c') rest = rest
turn_end c true (err (communication why), c') rest = rest
turn_end c true (err e, c') rest = some (err e, c')

module _ (dumps : Fields → List ℕ) (limit : ℕ) (scan : List ℕ → Scan) where
  abbrev pub received : Answer → Result Raised Fields
  received failed = err (communication request_failed)
  received undecodable = err unicode_error
  received (line []) = err (communication closed)
  received (line (c ∷ cs)) = payload_of (loads (int_of limit) last_wins (scan (c ∷ cs)))

  -- `request`, with a peer that answers what it is sent; `connect` has set the timeout of the socket to
  -- the `response_timeout`
  unfoldable pub request : (Float → List ℕ → Answer) → Fields → Method Fields
  request peer message c =
      if not (is_connected c)
      then (err (communication not_connected), c)
      else (received (peer c.response_timeout (dumps message ++ b'\n' ∷ [])), c)

  -- The body of the `try`: whether the DUT reported READY.
  unfoldable pub attempt : Round → Method Bool
  attempt round = do
    connect round.reachable
    payload ← request round.peer status_message
    pure (is_text "READY" (get "state" payload))

  -- `while time.monotonic() < deadline`; `none` where the readings of the clock end before the loop does.
  unfoldable pub poll : ℕ → List Round → LabClient → Option (Result Raised (Unit {0}) × LabClient)
  unfolding attempt
  poll deadline [] c = none
  poll deadline (r ∷ rs) c =
      let tried = attempt r c in
      turn_end c (ltb r.now deadline) tried (poll deadline rs (left_by tried))

  -- `wait_until_ready`, from the time `start`
  unfoldable pub wait_until_ready :
      Float → Float → ℕ → List Round → LabClient → Option (Result Raised (Unit {0}) × LabClient)
  wait_until_ready deadline_seconds poll_seconds deadline rounds c =
      if is_nonpositive deadline_seconds || is_nonpositive poll_seconds
      then some (err value_error, c)
      else poll deadline rounds c
