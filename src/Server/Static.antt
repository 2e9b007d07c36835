-- ===== src/Server/Static.antt =====
-- `_serve_static` of learning/server/app.py: the files of the page. The file system is a parameter.
use flight_test_lab.Prelude.{
  ℕ, String, Bool, true, false, ◌&&◌, ◌||◌, Option, none, some, List, [], ◌∷◌, str_eq,
  if◌then◌else◌, ◌==◌,
}
use flight_test_lab.Dict.{Dict, get_or}
use flight_test_lab.Progress.{value_error}
use flight_test_lab.Server.Text.{starts_with, drop_prefix, lstrip}
use flight_test_lab.Server.Thread.{Thread, returns, raises}
use flight_test_lab.Server.Request.{Python, not_found}
use flight_test_lab.Server.Payload.{Payload, Reply, success}
use flight_test_lab.Server.Steps.{fail}

-- The disk that the server sees. A resolved path is the list of its parts from the root on: `root` is
-- that of `STATIC_ROOT`, and `resolve r` that of `STATIC_ROOT / r`, `none` for a ValueError.
pub record Disk : Type 0 where
  pub root : List String
  pub resolve : String → Option (List String)
  pub content : List String → Option (List ℕ)
  pub suffix : List String → String

-- `static_root == candidate or static_root in candidate.parents`
unfoldable pub is_beneath : List String → List String → Bool
is_beneath [] path = true
is_beneath (r ∷ root) [] = false
is_beneath (r ∷ root) (p ∷ path) = str_eq r p && is_beneath root path

abbrev pub content_types : Dict String
content_types =
    (".html", "text/html; charset=utf-8")
    ∷ (".css", "text/css; charset=utf-8")
    ∷ (".js", "text/javascript; charset=utf-8")
    ∷ (".json", "application/json; charset=utf-8")
    ∷ (".svg", "image/svg+xml")
    ∷ (".png", "image/png")
    ∷ (".ico", "image/x-icon")
    ∷ []

abbrev pub serve_content : Disk → List String → Option (List ℕ) → Thread Reply
serve_content disk path none = fail 404 not_found
serve_content disk path (some body) = returns (
    success
      (Payload.page (get_or (disk.suffix path) "application/octet-stream" content_types) body))

-- The file at a resolved path, if it is beneath the root.
unfoldable pub serve_path : Disk → Option (List String) → Thread Reply
serve_path disk none = raises value_error
serve_path disk (some path) =
    if is_beneath disk.root path
    then serve_content disk path (disk.content path)
    else fail 404 not_found

unfoldable pub serve_static : Python → Disk → String → Thread Reply
serve_static py disk url_path =
    let relative = py.unquote (lstrip (λ c. c == b'/') url_path) in
    if str_eq relative "" || str_eq relative "static"
    then serve_path disk (disk.resolve (drop_prefix "static/" "static/index.html"))
    else if starts_with "static/" relative
    then serve_path disk (disk.resolve (drop_prefix "static/" relative))
    else fail 404 not_found
