-- ===== src/Server/Trust.antt =====
-- Which POSTs learning/server/app.py refuses before it reads their body.
use flight_test_lab.Prelude.{
  ap, ◌⊎◌, ◌≡◌, ◌≢◌, refl, inl, inr, ℕ, String, Bool, false, not, ◌&&◌, ◌||◌, Option, none, some,
  Bool-cases, contains, str_eq, if◌then◌else◌, ◌==◌, arith,
}
use flight_test_lab.Result.{Result, ok, err}
use flight_test_lab.Server.Thread.{Shared, run, ◌>>=◌}
use flight_test_lab.Server.Text.{is_empty_text}
use flight_test_lab.Server.Request.{
  Port, invalid, absent, given, Url, Python, Headers, Request, Refusal,
}
use flight_test_lab.Server.Origin.{
  loopback, is_json_type, host_of, is_local_name, has_port, is_own_origin, site_refusal,
  origin_refusal, same_origin,
}
use flight_test_lab.Server.Payload.{failure}
use flight_test_lab.Server.Router.{LearningServer, path_of, do_post, admit}
use flight_test_lab.Progress.{Raised}

-- The port of a page: the one that its URL writes, or else the one of its scheme.
abbrev port_number : Url → Option ℕ
port_number url = elim url.port [
  | invalid ↦ none
  | absent ↦ some (if str_eq url.scheme "https" then 443 else 80)
  | given n ↦ some n
]

-- What a request has that no page of this server, opened at a loopback address, sends.
pub data IsForeign (py : Python) (own : ℕ) (h : Headers) : Type 0 where
  -- a body that needs no preflight
  plain : is_json_type py h ≡ false → IsForeign py own h
  -- a name that was made to resolve to this machine
  rebound :
      is_empty_text (host_of h) ≡ false → contains (host_of h) loopback ≡ false → IsForeign py own h
  -- a page of another host
  other_host :
      (origin : String) (url : Url)
      → h.origin ≡ some origin
      → py.parse_url origin ≡ some url
      → is_local_name url.hostname ≡ false
      → url.port ≢ invalid
      → IsForeign py own h
  -- a page of another program on this machine, or one that came by another scheme
  other_scheme :
      (origin : String) (url : Url)
      → h.origin ≡ some origin
      → py.parse_url origin ≡ some url
      → str_eq url.scheme "http" ≡ false
      → url.port ≢ invalid
      → IsForeign py own h
  other_port :
      (origin : String) (url : Url) (n : ℕ)
      → h.origin ≡ some origin
      → py.parse_url origin ≡ some url
      → port_number url ≡ some n
      → (n == own) ≡ false
      → IsForeign py own h
  -- what a browser says of another site, where it names no origin
  other_site :
      (site : String)
      → h.origin ≡ none
      → h.sec_fetch_site ≡ some site
      → str_eq site "same-origin" ≡ false
      → str_eq site "none" ≡ false
      → IsForeign py own h

-- The answer is a refusal.
abbrev IsRefused : Result Raised (Option Refusal) → Type 0
IsRefused (ok (some refusal)) = Unit
IsRefused (ok none) = ⊥
IsRefused (err e) = ⊥

after_checks :
    (py : Python) (own : ℕ) (h : Headers)
    → IsRefused (origin_refusal py own h)
    → IsRefused (same_origin py own h)
unfolding same_origin
after_checks py own h refused = elim (Bool-cases (is_json_type py h)) [
  | inr other ↦ rw (other, same_origin) tt
  | inl json ↦
      elim (Bool-cases (not (is_empty_text (host_of h)) && not (contains (host_of h) loopback))) [
        | inl foreign ↦ rw (json, foreign, same_origin) tt
        | inr local ↦ rw (json, local, same_origin) refused
      ]
]

origin-IsRefused :
    (py : Python) (own : ℕ) (h : Headers) (origin : String)
    → h.origin ≡ some origin
    → is_own_origin py own origin ≡ ok false
    → IsRefused (origin_refusal py own h)
unfolding origin_refusal
origin-IsRefused py own h origin sent other = rw (sent, other, origin_refusal) tt

port_read :
    (own : ℕ) (url : Url) (port : Port)
    → url.port ≡ port
    → url.port ≢ invalid
    → (b : Bool) × (has_port own url ≡ ok b)
port_read own url invalid e h = absurd (h e)
port_read own url absent e h =
    ((if str_eq url.scheme "https" then 443 else 80) == own, rw (e, has_port))
port_read own url (given n) e h = (n == own, rw (e, has_port))

another_port :
    (own n : ℕ) (url : Url) (port : Port)
    → url.port ≡ port
    → port_number url ≡ some n
    → (n == own) ≡ false
    → has_port own url ≡ ok false
another_port own n url invalid e h other = cc (rw e at h)
another_port own n url absent e h other =
    let same : (if str_eq url.scheme "https" then 443 else 80) ≡ n = cc (rw e at h) in
    rw (e, has_port, same, other)
another_port own n url (given m) e h other =
    let same : m ≡ n = cc (rw e at h) in rw (e, has_port, same, other)

and_false : (a b c : Bool) → (a ≡ false) ⊎ (b ≡ false) ⊎ (c ≡ false) → (a && b && c) ≡ false
and_false a b c h = ground (arith, h)

not_own :
    (py : Python) (own : ℕ) (origin : String) (url : Url) (b : Bool)
    → py.parse_url origin ≡ some url
    → has_port own url ≡ ok b
    → (str_eq url.scheme "http" ≡ false) ⊎ (is_local_name url.hostname ≡ false) ⊎ (b ≡ false)
    → is_own_origin py own origin ≡ ok false
unfolding is_own_origin
not_own py own origin url b parsed port other =
    rw (parsed, port, is_own_origin)
      (ap ok (and_false (str_eq url.scheme "http") (is_local_name url.hostname) b other))

rebound-IsRefused :
    (py : Python) (own : ℕ) (h : Headers)
    → is_empty_text (host_of h) ≡ false
    → contains (host_of h) loopback ≡ false
    → IsRefused (same_origin py own h)
unfolding same_origin
rebound-IsRefused py own h some_ other = elim (Bool-cases (is_json_type py h)) [
  | inr form ↦ rw (form, same_origin) tt
  | inl json ↦ rw (json, some_, other, same_origin) tt
]

other_site-IsRefused :
    (py : Python) (own : ℕ) (h : Headers) (site : String)
    → h.origin ≡ none
    → h.sec_fetch_site ≡ some site
    → (str_eq site "same-origin" || str_eq site "none") ≡ false
    → IsRefused (origin_refusal py own h)
unfolding origin_refusal
other_site-IsRefused py own h site sent named other =
    rw (sent, named, other, origin_refusal, site_refusal) tt

plain-IsRefused :
    (py : Python) (own : ℕ) (h : Headers)
    → is_json_type py h ≡ false
    → IsRefused (same_origin py own h)
unfolding same_origin
plain-IsRefused py own h other = rw (other, same_origin) tt

IsForeign-IsRefused :
    (py : Python) (own : ℕ) (h : Headers) → IsForeign py own h → IsRefused (same_origin py own h)
IsForeign-IsRefused py own h (plain other) = plain-IsRefused py own h other
IsForeign-IsRefused py own h (rebound some_ other) = rebound-IsRefused py own h some_ other
IsForeign-IsRefused py own h (other_host origin url sent parsed other readable) =
    let (b, port) = port_read own url url.port refl readable in
    after_checks py own h (
      origin-IsRefused py own h origin sent
        (not_own py own origin url b parsed port (inr (inl other))))
IsForeign-IsRefused py own h (other_scheme origin url sent parsed other readable) =
    let (b, port) = port_read own url url.port refl readable in
    after_checks py own h
      (origin-IsRefused py own h origin sent (not_own py own origin url b parsed port (inl other)))
IsForeign-IsRefused py own h (other_port origin url n sent parsed port other) =
    let read = another_port own n url url.port refl port other in
    after_checks py own h (
      origin-IsRefused py own h origin sent
        (not_own py own origin url false parsed read (inr (inr refl))))
IsForeign-IsRefused py own h (other_site site sent named a b) =
    after_checks py own h (other_site-IsRefused py own h site sent named (rw (a, b)))

refused_reply :
    (server : LearningServer) (now : String) (request : Request) (p : Shared) (path : String)
    (r : Result Raised (Option Refusal))
    → server.python.parse_path request.target ≡ some path
    → same_origin server.python server.port request.headers ≡ r
    → IsRefused r
    → (refusal : Refusal) × (run (do_post server now request) p ≡ (ok (failure 403 refusal), p))
unfolding do_post admit run ◌>>=◌
refused_reply server now request p path (ok (some refusal)) t e h =
    (refusal, rw (t, e, do_post, path_of, run))
refused_reply server now request p path (ok none) t e h = absurd h
refused_reply server now request p path (err x) t e h = absurd h

-- A POST that a page of another site, host, port or scheme can make a browser send is answered with the
-- status 403 and changes nothing, whatever its path, if its target can be read, and its body: one whose
-- type is not JSON, one whose Host is no loopback name, one whose `Origin` can be read and has another
-- scheme, another host, or another port, written or its scheme's own, or one that the browser marks as
-- another site's where it names no origin.
pub do_post-foreign :
    (server : LearningServer) (now : String) (request : Request) (p : Shared) (path : String)
    → server.python.parse_path request.target ≡ some path
    → IsForeign server.python server.port request.headers
    → (refusal : Refusal) × (run (do_post server now request) p ≡ (ok (failure 403 refusal), p))
do_post-foreign server now request p path target foreign =
    refused_reply server now request p path _ target refl
      (IsForeign-IsRefused server.python server.port request.headers foreign)
