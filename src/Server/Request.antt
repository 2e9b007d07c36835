-- ===== src/Server/Request.antt =====
-- Requests to learning/server/app.py, the reasons of its refusals, and the reading of a body.
use flight_test_lab.Prelude.{
  ℕ, String, Option, none, some, List, [], ◌∷◌, leb, if◌then◌else◌, ◌&&◌, zero, suc,
}
use flight_test_lab.Prelude.Int.{ℤ, pos, negsuc}
use flight_test_lab.Json.{Json, Fields, obj}
use flight_test_lab.Json.Loads.{Scan, loads, int_of, last_wins}

-- The port of a parsed URL: reading it raises a ValueError for text that is no port number.
pub data Port : Type 0 where
  invalid absent : Port
  given : ℕ → Port

pub record Url : Type 0 where
  pub scheme : String
  pub hostname : Option String
  pub port : Port

-- What the server uses of Python: `str.lower`, `int` of a text, `urlparse` of an `Origin`
-- and the path that it finds in a request target, each `none` for a ValueError, `unquote`, and the scanner of `json.loads` with the interpreter's digit limit.
pub record Python : Type 0 where
  pub lower : String → String
  pub parse_int : String → Option ℤ
  pub parse_url : String → Option Url
  pub parse_path : String → Option String
  pub unquote : String → String
  pub scan : List ℕ → Scan
  pub digit_limit : ℕ

-- The headers that are read; `none` for one that is not sent.
pub record Headers : Type 0 where
  pub content_type : Option String
  pub host : Option String
  pub origin : Option String
  pub sec_fetch_site : Option String
  pub content_length : Option String

-- `target` is `self.path`, as the request line has it; `bytes` is what the client sends after the headers.
pub record Request : Type 0 where
  pub target : String
  pub headers : Headers
  pub bytes : List ℕ

-- The messages of the error answers, by what they name.
pub data Refusal : Type 0 where
  not_json_type invalid_body not_found : Refusal
  foreign_host cross_origin cross_site : String → Refusal
  lesson_id_not_text lesson_unavailable : Refusal
  unknown_lesson unknown_flow : String → Refusal
  step_fields_required answer_index_required answer_text_required : Refusal
  unknown_block unknown_kind : String → Refusal
  hint_out_of_range bad_validator_args unknown_question : Refusal
  no_verify_block : String → Refusal
  not_started stopped : Refusal

abbrev pub max_body : ℕ
max_body = 65_536

abbrev of_parsed : Option ℤ → Option ℕ
of_parsed (some (pos n)) = some n
of_parsed (some (negsuc n)) = none
of_parsed none = none

-- `_content_length`
unfoldable pub content_length : Python → Headers → Option ℕ
content_length py headers = elim headers.content_length [
  | none ↦ some 0
  | some raw ↦ of_parsed (py.parse_int raw)
]

-- `self.rfile.read(length)`
unfoldable pub read : ℕ → List ℕ → List ℕ
read zero bytes = []
read (suc n) [] = []
read (suc n) (b ∷ bytes) = b ∷ read n bytes

abbrev pub only_object : Option Json → Option Fields
only_object (some (obj fs)) = some fs
only_object _ = none

-- `_read_body`
unfoldable pub read_body : Python → Request → Option Fields
read_body py request = elim (content_length py request.headers) [
  | none ↦ none
  | some length ↦
      if leb 1 length && leb length max_body
      then only_object
          (loads (int_of py.digit_limit) last_wins (py.scan (read length request.bytes)))
      else none
]
