-- ===== src/Server/Origin.antt =====
-- `_same_origin` of learning/server/app.py: which requests may change anything.
use flight_test_lab.Prelude.{
  ℕ, String, Bool, false, not, ◌&&◌, ◌||◌, Option, none, some, List, [], ◌∷◌, str_eq, contains,
  ◌==◌, if◌then◌else◌,
}
use flight_test_lab.Result.{Result, ok, err, ◌>>=◌}
use flight_test_lab.Progress.{Raised, value_error}
use flight_test_lab.Curriculum.Values.{is_space}
use flight_test_lab.Server.Text.{before_first, before_last, strip, is_bracket, is_empty_text}
use flight_test_lab.Server.Request.{
  invalid, absent, given, Url, Python, Headers, Refusal, not_json_type, foreign_host, cross_origin,
  cross_site,
}

abbrev pub loopback : List String
loopback = "127.0.0.1" ∷ "localhost" ∷ "::1" ∷ []

-- `header or ""`
abbrev pub or_empty : Option String → String
or_empty none = ""
or_empty (some s) = s

abbrev pub is_json_type : Python → Headers → Bool
is_json_type py h =
    str_eq (py.lower (strip is_space (before_first b';' (or_empty h.content_type))))
      "application/json"

abbrev pub host_of : Headers → String
host_of h = strip is_bracket (before_last b':' (or_empty h.host))

abbrev pub is_local_name : Option String → Bool
is_local_name none = false
is_local_name (some name) = contains name loopback

-- `port == self.server.server_address[1]`, with the scheme's port where none is written.
abbrev pub has_port : ℕ → Url → Result Raised Bool
has_port own url = elim url.port [
  | invalid ↦ err value_error
  | absent ↦ ok ((if str_eq url.scheme "https" then 443 else 80) == own)
  | given n ↦ ok (n == own)
]

-- Whether an `Origin` is this server.
unfoldable pub is_own_origin : Python → ℕ → String → Result Raised Bool
is_own_origin py own origin = elim (py.parse_url origin) [
  | none ↦ err value_error
  | some url ↦ do
    same_port ← has_port own url
    ok (str_eq url.scheme "http" && is_local_name url.hostname && same_port)
]

abbrev pub site_refusal : Option String → Option Refusal
site_refusal none = none
site_refusal (some site) =
    if str_eq site "same-origin" || str_eq site "none" then none else some (cross_site site)

-- The checks of the `Origin` and of `Sec-Fetch-Site`.
unfoldable pub origin_refusal : Python → ℕ → Headers → Result Raised (Option Refusal)
origin_refusal py own h = elim h.origin [
  | none ↦ ok (site_refusal h.sec_fetch_site)
  | some origin ↦ do
    same ← is_own_origin py own origin
    ok (if same then site_refusal h.sec_fetch_site else some (cross_origin origin))
]

-- The refusal, or `none` for a request that may change state; `own` is the server's port.
unfoldable pub same_origin : Python → ℕ → Headers → Result Raised (Option Refusal)
same_origin py own h =
    if not (is_json_type py h)
    then ok (some not_json_type)
    else if not (is_empty_text (host_of h)) && not (contains (host_of h) loopback)
    then ok (some (foreign_host (host_of h)))
    else origin_refusal py own h
