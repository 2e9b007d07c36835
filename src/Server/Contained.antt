-- ===== src/Server/Contained.antt =====
-- Which files `_serve_static` of learning/server/app.py gives away.
use flight_test_lab.Prelude.{
  ◌≡◌, ◌&&◌, ◌==◌, refl, ℕ, String, Bool, true, false, ◌||◌, Option, none, some, List, [], ◌∷◌,
  ◌++◌, Bool-cases, inl, inr, str_eq, eq_iff, if◌then◌else◌, arith,
}
use flight_test_lab.Result.{Result, ok, err}
use flight_test_lab.Progress.{Raised}
use flight_test_lab.Server.Text.{starts_with, drop_prefix, lstrip}
use flight_test_lab.Server.Thread.{Shared, Thread, run}
use flight_test_lab.Server.Request.{Python, Refusal}
use flight_test_lab.Server.Steps.{fail}
use flight_test_lab.Server.Payload.{Payload, Reply, failure, success}
use flight_test_lab.Server.Static.{Disk, is_beneath, serve_content, serve_path, serve_static}

-- The path is that of a file beneath the root, and the bytes are the file's.
abbrev pub IsFileOf : Disk → List ℕ → Type 0
IsFileOf disk body = (rest : List String) × (disk.content (disk.root ++ rest) ≡ some body)

-- What the answer gives away: nothing, or a file beneath the root.
abbrev pub GivesAway : Disk → Result Raised Reply → Type 0
GivesAway disk (ok (success (Payload.page kind body))) = IsFileOf disk body
GivesAway disk (ok (failure status message)) = Unit
GivesAway disk (ok _) = ⊥
GivesAway disk (err e) = Unit

both_hold : (a b : Bool) → (a && b) ≡ true → (a ≡ true) × (b ≡ true)
both_hold a b h = ground (arith, h)

is_beneath-append :
    (root path : List String)
    → is_beneath root path ≡ true
    → (rest : List String) × (path ≡ root ++ rest)
unfolding is_beneath
is_beneath-append [] path h = (path, refl)
is_beneath-append (r ∷ root) [] h = cc
is_beneath-append (r ∷ root) (p ∷ path) h =
    let both = both_hold (str_eq r p) (is_beneath root path) h in
    let (rest, e) = is_beneath-append root path both.1 in (rest, cc ((eq_iff r p).0 both.0, e))

serve_content-GivesAway :
    (disk : Disk) (rest : List String) (p : Shared) (o : Option (List ℕ))
    → disk.content (disk.root ++ rest) ≡ o
    → GivesAway disk (run (serve_content disk (disk.root ++ rest) o) p).0
unfolding run
serve_content-GivesAway disk rest p none e = tt
serve_content-GivesAway disk rest p (some body) e = (rest, e)

serve_path-GivesAway :
    (disk : Disk) (o : Option (List String)) (p : Shared)
    → GivesAway disk (run (serve_path disk o) p).0
unfolding serve_path run
serve_path-GivesAway disk none p = tt
serve_path-GivesAway disk (some path) p = elim (Bool-cases (is_beneath disk.root path)) [
  | inr outside ↦ rw (outside, serve_path) tt
  | inl inside ↦
      let (rest, e) = is_beneath-append disk.root path inside in
      rw (inside, serve_path, e) (serve_content-GivesAway disk rest p _ refl)
]

if-GivesAway :
    (disk : Disk) (p : Shared) (b : Bool) (t u : Thread Reply)
    → GivesAway disk (run t p).0
    → GivesAway disk (run u p).0
    → GivesAway disk (run (if b then t else u) p).0
if-GivesAway disk p true t u h k = h
if-GivesAway disk p false t u h k = k

fail-GivesAway :
    (disk : Disk) (p : Shared) (status : ℕ) (message : Refusal)
    → GivesAway disk (run (fail status message) p).0
unfolding run
fail-GivesAway disk p status message = tt

-- Whatever path is asked for, however it is escaped and whatever it resolves to, the answer is an
-- error, an exception, or the content of a file beneath the directory of the page.
pub serve_static-GivesAway :
    (py : Python) (disk : Disk) (url_path : String) (p : Shared)
    → GivesAway disk (run (serve_static py disk url_path) p).0
unfolding serve_static
serve_static-GivesAway py disk url_path p =
    let relative = py.unquote (lstrip (λ c. c == b'/') url_path) in
    if-GivesAway disk p (str_eq relative "" || str_eq relative "static") _ _
      (serve_path-GivesAway disk _ p)
      (if-GivesAway disk p (starts_with "static/" relative) _ _
        (serve_path-GivesAway disk (disk.resolve (drop_prefix "static/" relative)) p)
        (fail-GivesAway disk p _ _))
