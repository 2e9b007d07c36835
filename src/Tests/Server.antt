-- ===== src/Tests/Server.antt =====
-- Concrete requests to learning/server/app.py.
use flight_test_lab.Prelude.{All, ◌≢◌, ◌≡◌, ◌⊎◌, refl, String, false, none, some, List, [], ◌∷◌}
use flight_test_lab.Prelude.Int.{pos}
use flight_test_lab.Result.{ok}
use flight_test_lab.Json.{Json, Fields}
use flight_test_lab.Json.Loads.{Raw, RawPairs, Scan}
use flight_test_lab.Progress.Store.Safety.{IsComplete}
use flight_test_lab.Validators.{crashed}
use flight_test_lab.Server.Text.{before_first, before_last, has_code, lstrip, rstrip}
use flight_test_lab.Server.Thread.{Shared, Thread, run, ◌>>=◌}
use flight_test_lab.Server.Request.{Port, Url, Python, Headers, Request, Refusal, not_json_type}
use flight_test_lab.Server.Origin.{same_origin, origin_refusal}
use flight_test_lab.Server.Payload.{Reply, failure}
use flight_test_lab.Server.Static.{Disk, serve_static}
use flight_test_lab.Server.Router.{LearningServer, do_post, do_get, admit}
use flight_test_lab.Server.Checks.{handle_validate}
use flight_test_lab.Server.Schedule.{Step, Reach, IsAnswered}
use flight_test_lab.Server.Liveness.{post_threads, do_post-IsComplete, do_post-finish}
use flight_test_lab.Server.Answered.{IsReadable}
use flight_test_lab.Server.Servable.{IsUsable, load_curriculum-IsUsable}
use flight_test_lab.Server.ReadOnly.{do_get-reads}
use flight_test_lab.Server.Unchanged.{do_post-refused}
use flight_test_lab.Server.Trust.{IsForeign, do_post-foreign}
use flight_test_lab.Server.Shutdown.{begin_shutdown, IsTurnedAway, handle_validate-down}
use flight_test_lab.Server.Contained.{GivesAway, serve_static-GivesAway}
use flight_test_lab.Tests.Curriculum.{site, files, loaded_program, files_load}
use flight_test_lab.Tests.Progress.{new_store, new_store-IsComplete}

-- {"lesson_id": "sockets"}
abbrev start_text : Raw
start_text = Raw.obj (RawPairs.pair "lesson_id" (Raw.str "sockets") RawPairs.end)

abbrev elsewhere : Url
elsewhere = record { scheme = "http"; hostname = some "evil.example"; port = Port.absent }

abbrev python : Python
python = record {
  lower = λ s. s;
  parse_int = λ s. some (pos 5);
  parse_url = λ s. some elsewhere;
  parse_path = λ s. some s;
  unquote = λ s. s;
  scan = λ bytes. Scan.tree start_text;
  digit_limit = 4300;
}

abbrev disk : Disk
disk = record {
  root = "app" ∷ "static" ∷ [];
  resolve = λ r. some ("app" ∷ "static" ∷ r ∷ []);
  content = λ path. some (b'h' ∷ b'i' ∷ []);
  suffix = λ path. ".html";
}

abbrev server : LearningServer
server = record {
  port = 8765;
  curriculum = loaded_program;
  checks = record { run = λ name args. crashed "" "no check"; unknown = crashed "" "KeyError" };
  python = python;
  disk = disk;
  choose = λ weights. 0;
}

abbrev headers_of : String → Headers
headers_of kind = record {
  content_type = some kind;
  host = some "localhost:8765";
  origin = none;
  sec_fetch_site = none;
  content_length = some "5";
}

abbrev start_request : Request
start_request = record {
  target = "/api/start";
  headers = headers_of "application/json";
  bytes = b'b' ∷ b'o' ∷ b'd' ∷ b'y' ∷ b'!' ∷ [];
}

abbrev form_request : Request
form_request = record start_request { headers = headers_of "text/plain" }

abbrev shared : Shared
shared = record { progress = new_store; shutting_down = false }

start-IsReadable : IsReadable server start_request
unfolding same_origin origin_refusal before_first before_last has_code lstrip rstrip
start-IsReadable = (tt, tt)

load_curriculum-IsUsable_example : IsUsable loaded_program
load_curriculum-IsUsable_example = load_curriculum-IsUsable site files files_load

do_get-reads_example :
    (run (do_get server (record start_request { target = "/api/state" })) shared).1 ≡ shared
do_get-reads_example = do_get-reads server (record start_request { target = "/api/state" }) shared

form_refused :
    run (do_post server "1" form_request) shared ≡ (ok (failure 403 not_json_type), shared)
unfolding do_post admit run ◌>>=◌ same_origin before_first lstrip rstrip
form_refused = refl

do_post-refused_example : shared ≡ shared
do_post-refused_example =
    do_post-refused server "1" form_request shared shared (failure 403 not_json_type) form_refused
      refl

abbrev threads : List (Thread Reply)
threads = post_threads server (("1", start_request) ∷ ("2", start_request) ∷ [])

do_post-IsComplete_example :
    IsComplete new_store.state
    × (((vs : List (Thread Reply)) × (r : Shared) × Step threads shared vs r)
        ⊎ All IsAnswered threads)
do_post-IsComplete_example =
    do_post-IsComplete site files server (("1", start_request) ∷ ("2", start_request) ∷ []) shared
      files_load new_store-IsComplete (start-IsReadable, (start-IsReadable, tt)) threads shared
      Reach.stay

do_post-finish_example :
    (vs : List (Thread Reply)) × (r : Shared) × Reach threads shared vs r × All IsAnswered vs
do_post-finish_example =
    do_post-finish site files server (("1", start_request) ∷ ("2", start_request) ∷ []) shared
      files_load new_store-IsComplete (start-IsReadable, (start-IsReadable, tt)) threads shared
      Reach.stay

abbrev foreign_request : Request
foreign_request = record start_request {
  headers = record (headers_of "application/json") { origin = some "http://evil.example" };
}

port_is_readable : elsewhere.port ≢ Port.invalid
port_is_readable = λ e. cc

do_post-foreign_example :
    (refusal : Refusal) × (run (do_post server "1" foreign_request) shared
      ≡ (ok (failure 403 refusal), shared))
do_post-foreign_example =
    do_post-foreign server "1" foreign_request shared "/api/start" refl
      (IsForeign.other_host "http://evil.example" elsewhere refl refl refl port_is_readable)

abbrev validate_body : Fields
validate_body =
    Fields.field "lesson_id" (Json.str "sockets")
      (Fields.field "block_id" (Json.str "build") Fields.end)

handle_validate-down_example :
    IsTurnedAway
      (begin_shutdown shared)
      (run (handle_validate server.checks loaded_program "1" validate_body) (begin_shutdown shared))
handle_validate-down_example =
    handle_validate-down server.checks "1" shared loaded_program validate_body

serve_static-GivesAway_example :
    GivesAway disk (run (serve_static python disk "/static/index.html") shared).0
serve_static-GivesAway_example = serve_static-GivesAway python disk "/static/index.html" shared
