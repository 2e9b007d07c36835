-- ===== src/Server/Router.antt =====
-- `do_GET` and `do_POST` of learning/server/app.py.
use flight_test_lab.Prelude.{ℕ, String, ◌||◌, Option, none, some, List, str_eq, if◌then◌else◌}
use flight_test_lab.Json.{Fields}
use flight_test_lab.Result.{Result, ok, err}
use flight_test_lab.Progress.{Raised, value_error}
use flight_test_lab.Curriculum.{Curriculum}
use flight_test_lab.Progress.Queries.{Fraction}
use flight_test_lab.Validators.{Registry}
use flight_test_lab.Server.Text.{starts_with, drop_prefix}
use flight_test_lab.Server.Thread.{Thread, of_result, ◌>>=◌}
use flight_test_lab.Server.Request.{Python, Request, Refusal, read_body, not_found, invalid_body}
use flight_test_lab.Server.Origin.{same_origin}
use flight_test_lab.Server.Payload.{Reply}
use flight_test_lab.Server.Steps.{fail, handle_start, handle_step, handle_hint, handle_complete}
use flight_test_lab.Server.Checks.{handle_validate}
use flight_test_lab.Server.Interview.{handle_interview_answer, handle_interview_next}
use flight_test_lab.Server.Static.{Disk, serve_static}
use flight_test_lab.Server.Reads.{
  handle_state, handle_curriculum, handle_lesson, handle_mastery, handle_flow,
}

-- What a server is built with, and what it uses of Python and of the machine.
pub record LearningServer : Type 0 where
  pub port : ℕ
  pub curriculum : Curriculum
  pub checks : Registry
  pub python : Python
  pub disk : Disk
  -- `random.choices`
  pub choose : List Fraction → ℕ

-- `urlparse(self.path).path`, which raises a ValueError for a target like `http://[`.
abbrev pub path_of : Python → Request → Result Raised String
path_of py request = elim (py.parse_path request.target) [
  | none ↦ err value_error
  | some path ↦ ok path
]

-- The handler of a path.
unfoldable pub route : LearningServer → String → Thread Reply
route server path =
    let c = server.curriculum in
    if str_eq path "/" || starts_with "/static/" path
    then serve_static server.python server.disk path
    else if str_eq path "/api/state"
    then handle_state c
    else if str_eq path "/api/curriculum"
    then handle_curriculum c
    else if starts_with "/api/lesson/" path
    then handle_lesson server.python c (drop_prefix "/api/lesson/" path)
    else if str_eq path "/api/mastery"
    then handle_mastery c
    else if starts_with "/api/flow/" path
    then handle_flow server.python c (drop_prefix "/api/flow/" path)
    else if str_eq path "/api/interview"
    then handle_interview_next server.choose c
    else fail 404 not_found

unfoldable pub do_get : LearningServer → Request → Thread Reply
do_get server request = of_result (path_of server.python request) >>= route server

-- The handler of a path, with the body of the request.
unfoldable pub dispatch : LearningServer → String → String → Fields → Thread Reply
dispatch server now path body =
    let c = server.curriculum in
    let py = server.python in
    if str_eq path "/api/start"
    then handle_start c now body
    else if str_eq path "/api/step"
    then handle_step py c now body
    else if str_eq path "/api/hint"
    then handle_hint c body
    else if str_eq path "/api/validate"
    then handle_validate server.checks c now body
    else if str_eq path "/api/complete"
    then handle_complete c now body
    else if str_eq path "/api/interview/answer"
    then handle_interview_answer py c now body
    else fail 404 not_found

abbrev pub with_body : LearningServer → String → String → Option Fields → Thread Reply
with_body server now path none = fail 400 invalid_body
with_body server now path (some body) = dispatch server now path body

-- The refusal of a request, or its handler.
unfoldable pub admit : LearningServer → String → Request → String → Option Refusal → Thread Reply
admit server now request path (some refusal) = fail 403 refusal
admit server now request path none = with_body server now path (read_body server.python request)

unfoldable pub do_post : LearningServer → String → Request → Thread Reply
do_post server now request = do
  path ← of_result (path_of server.python request)
  refusal ← of_result (same_origin server.python server.port request.headers)
  admit server now request path refusal
