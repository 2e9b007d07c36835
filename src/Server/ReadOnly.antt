-- ===== src/Server/ReadOnly.antt =====
-- A GET to learning/server/app.py changes nothing.
use flight_test_lab.Prelude.{◌≡◌, ℕ, String, Option, none, some, List, Option-cases, inl, inr}
use flight_test_lab.Dict
use flight_test_lab.Curriculum.{Lesson, Curriculum}
use flight_test_lab.Progress.Queries.{Fraction}
use flight_test_lab.Server.Thread.{of_result, Shared, run}
use flight_test_lab.Server.Request.{Python, Request}
use flight_test_lab.Server.Views.{lesson_public, resume}
use flight_test_lab.Server.Interview.{handle_interview_next}
use flight_test_lab.Server.Static.{Disk, serve_static, serve_path, serve_content}
use flight_test_lab.Server.Reads.{
  handle_state, handle_curriculum, handle_lesson, handle_mastery, handle_flow,
}
use flight_test_lab.Server.Router.{LearningServer, path_of, route, do_get}
use flight_test_lab.Server.Effects.{
  IsReading-of_result, IsReading, IsReading-returns, IsReading-if, IsReading-bind, IsReading-raises,
  run-IsReading, reading_rules,
}

pub IsReading-lesson_public : (c : Curriculum) (l : Lesson) → IsReading (lesson_public c l)
unfolding lesson_public
IsReading-lesson_public c l = search reading_rules

pub IsReading-resume : (c : Curriculum) → IsReading (resume c)
unfolding resume
IsReading-resume c = search reading_rules

IsReading-handle_state : (c : Curriculum) → IsReading (handle_state c)
unfolding handle_state
IsReading-handle_state c = search (reading_rules, IsReading-resume) depth 12

IsReading-handle_curriculum : (c : Curriculum) → IsReading (handle_curriculum c)
unfolding handle_curriculum
IsReading-handle_curriculum c = search reading_rules

IsReading-handle_lesson :
    (py : Python) (c : Curriculum) (name : String) → IsReading (handle_lesson py c name)
unfolding handle_lesson
IsReading-handle_lesson py c name = elim (Option-cases (Dict.get (py.unquote name) c.lessons)) [
  | inl unknown ↦ rw (unknown, handle_lesson) (IsReading-returns _)
  | inr (l, known) ↦
      rw (known, handle_lesson)
        (IsReading-bind (lesson_public c l) _ (IsReading-lesson_public c l)
          (λ view. IsReading-returns _))
]

IsReading-handle_mastery : (c : Curriculum) → IsReading (handle_mastery c)
unfolding handle_mastery
IsReading-handle_mastery c = search reading_rules

IsReading-handle_flow :
    (py : Python) (c : Curriculum) (name : String) → IsReading (handle_flow py c name)
unfolding handle_flow
IsReading-handle_flow py c name = elim (Option-cases (Dict.get (py.unquote name) c.flows)) [
  | inl unknown ↦ rw (unknown, handle_flow) (IsReading-returns _)
  | inr (flow, known) ↦ rw (known, handle_flow) (IsReading-returns _)
]

IsReading-handle_interview_next :
    (choose : List Fraction → ℕ) (c : Curriculum) → IsReading (handle_interview_next choose c)
unfolding handle_interview_next
IsReading-handle_interview_next choose c = search reading_rules

IsReading-serve_content :
    (disk : Disk) (path : List String) (o : Option (List ℕ)) → IsReading (serve_content disk path o)
IsReading-serve_content disk path none = IsReading-returns _
IsReading-serve_content disk path (some body) = IsReading-returns _

IsReading-serve_path : (disk : Disk) (o : Option (List String)) → IsReading (serve_path disk o)
unfolding serve_path
IsReading-serve_path disk none = IsReading-raises _ _
IsReading-serve_path disk (some path) =
    IsReading-if _ _ _ (IsReading-serve_content disk path _) (IsReading-returns _)

IsReading-serve_static :
    (py : Python) (disk : Disk) (path : String) → IsReading (serve_static py disk path)
unfolding serve_static
IsReading-serve_static py disk path = search (reading_rules, IsReading-serve_path)

IsReading-route : (server : LearningServer) (path : String) → IsReading (route server path)
unfolding route
IsReading-route server path =
    search
      (
        reading_rules, IsReading-serve_static, IsReading-handle_state, IsReading-handle_curriculum,
        IsReading-handle_lesson, IsReading-handle_mastery, IsReading-handle_flow,
        IsReading-handle_interview_next,
      )
      depth 12

IsReading-do_get : (server : LearningServer) (request : Request) → IsReading (do_get server request)
unfolding do_get
IsReading-do_get server request =
    IsReading-bind (of_result (path_of server.python request)) _ (IsReading-of_result _)
      (IsReading-route server)

-- A GET changes nothing, neither the learner's records nor the file they are saved in, whatever its
-- path, and whether it is answered or ends with an exception.
pub do_get-reads :
    (server : LearningServer) (request : Request) (p : Shared)
    → (run (do_get server request) p).1 ≡ p
do_get-reads server request p =
    run-IsReading (do_get server request) p (IsReading-do_get server request)
