-- ===== src/Server/Unchanged.antt =====
-- A POST to learning/server/app.py that is answered with an error has changed nothing.
use flight_test_lab.Prelude.{
  ap, [], ◌≡◌, refl, ◌⊎◌, inl, inr, String, Bool, true, false, Option, none, some, List,
  Option-cases,
}
use flight_test_lab.Result.{Result, ok, err}
use flight_test_lab.Json.{Fields, get, member}
use flight_test_lab.Curriculum.{Lesson, Curriculum, is_text, text}
use flight_test_lab.Progress.{Raised}
use flight_test_lab.Progress.Store.{on_record, ProgressStore, record_validation, record_interview}
use flight_test_lab.Progress.Completion.{Missing, mark_complete, lesson_completion}
use flight_test_lab.Validators.{Registry, Outcome, finished, crashed}
use flight_test_lab.Server.Thread.{Shared, ◌>>=◌, of_result, run, is_shutting_down}
use flight_test_lab.Server.Request.{Python, Request, Refusal, read_body}
use flight_test_lab.Server.Payload.{Reply, is_error}
use flight_test_lab.Server.Views.{resume}
use flight_test_lab.Server.Steps.{completion_reply, handle_complete}
use flight_test_lab.Server.Checks.{
  settle_check, after_check, run_check, check_block, handle_validate, verify_block, args_of,
  seen_before, is_historical,
}
use flight_test_lab.Server.Interview.{find_question, grade_answer, handle_interview_answer}
use flight_test_lab.Server.Origin.{same_origin}
use flight_test_lab.Server.Router.{LearningServer, dispatch, with_body, path_of, admit, do_post}
use flight_test_lab.Server.Effects.{
  Succeeds, Succeeds-bind, Succeeds-returns, IsReading, IsReading-returns, IsReading-ask,
  IsReading-of_result, IsReading-is_shutting_down, IsCareful, IsCareful-bind, IsCareful-call,
  IsCareful-returns, IsCareful-if, run-IsCareful,
}
use flight_test_lab.Server.ReadOnly.{IsReading-resume}
use flight_test_lab.Server.Refusals.{
  IsCareful-with_lesson, IsCareful-if_available, IsCareful-handle_start, IsCareful-with_answer,
  IsCareful-handle_step, IsCareful-handle_hint,
}

IsReading-seen_before :
    (id block_id : String) (historical : Bool) → IsReading (seen_before id block_id historical)
IsReading-seen_before id block_id true = IsReading-ask _
IsReading-seen_before id block_id false = IsReading-returns _

-- `mark_complete` changes nothing unless it answers true.
completing :
    (c : Curriculum) (now : String) (l : Lesson) (p : ProgressStore)
    (r : Result Raised (Bool × List Missing))
    → lesson_completion p.state l (some c) ≡ r
    → ((mark_complete now l (some c) p).1 ≡ p)
      ⊎ ((mark_complete now l (some c) p).0 ≡ ok (true, []))
unfolding mark_complete on_record
completing c now l p (err e) h = inl (rw (h, mark_complete))
completing c now l p (ok (false, missing)) h = inl (rw (h, mark_complete))
completing c now l p (ok (true, missing)) h = inr (rw (h, mark_complete))

IsCareful-completion_reply :
    (c : Curriculum) (answer : Bool × List Missing) → IsCareful (completion_reply c answer)
IsCareful-completion_reply c (false, missing) = IsCareful-returns _
IsCareful-completion_reply c (true, missing) =
    IsCareful-bind (resume c) _ (IsReading-resume c) (λ next. IsCareful-returns _)

Succeeds-completed :
    (c : Curriculum) (r : Result Raised (Bool × List Missing))
    → r ≡ ok (true, [])
    → Succeeds (of_result r >>= completion_reply c)
unfolding ◌>>=◌
Succeeds-completed c r done = rw done (Succeeds-bind (resume c) _ (λ next. Succeeds-returns _ refl))

IsCareful-handle_complete :
    (c : Curriculum) (now : String) (body : Fields) → IsCareful (handle_complete c now body)
unfolding handle_complete IsCareful ◌>>=◌
IsCareful-handle_complete c now body = IsCareful-with_lesson c (get "lesson_id" body) _ λ l p.
    elim (completing c now l p.progress _ refl) [
      | inl same ↦ inl (
        ap (λ s. record p { progress = s }) same,
        IsCareful-bind (of_result (mark_complete now l (some c) p.progress).0) _
            (IsReading-of_result _) (IsCareful-completion_reply c),
      )
      | inr done ↦ inr (Succeeds-completed c (mark_complete now l (some c) p.progress).0 done)
    ]

IsCareful-settle_check :
    (now : String) (l : Lesson) (block_id : String) (b : Fields) (outcome : Outcome)
    → IsCareful (settle_check now l block_id b outcome)
unfolding settle_check
IsCareful-settle_check now l block_id b outcome =
    IsCareful-bind (seen_before l.id block_id (is_historical b)) _
      (IsReading-seen_before l.id block_id (is_historical b))
      λ seen.
        IsCareful-call (record_validation now l.id block_id _ _ _ _) _
          (λ u. Succeeds-returns _ refl)

IsCareful-after_check :
    (now : String) (l : Lesson) (block_id : String) (b : Fields) (outcome : Outcome)
    → IsCareful (after_check now l block_id b outcome)
unfolding after_check
IsCareful-after_check now l block_id b (crashed trace error) =
    IsCareful-settle_check now l block_id b (crashed trace error)
IsCareful-after_check now l block_id b (finished result) =
    IsCareful-bind is_shutting_down _ IsReading-is_shutting_down λ down.
      IsCareful-if down _ _ (IsCareful-returns _)
        (IsCareful-settle_check now l block_id b (finished result))

IsCareful-run_check :
    (checks : Registry) (now : String) (l : Lesson) (block_id : String) (b args : Fields)
    → IsCareful (run_check checks now l block_id b args)
unfolding run_check
IsCareful-run_check checks now l block_id b args =
    IsCareful-bind is_shutting_down _ IsReading-is_shutting_down
      λ down. IsCareful-if down _ _ (IsCareful-returns _) (IsCareful-after_check now l block_id b _)

IsCareful-check_block :
    (checks : Registry) (now : String) (l : Lesson) (block_id : String) (b : Fields)
    → IsCareful (check_block checks now l block_id b)
unfolding check_block
IsCareful-check_block checks now l block_id b = elim (Option-cases (args_of (member "args" b))) [
  | inl bad ↦ rw (bad, check_block) (IsCareful-returns _)
  | inr (args, good) ↦ rw (good, check_block) (IsCareful-run_check checks now l block_id b args)
]

IsCareful-handle_validate :
    (checks : Registry) (c : Curriculum) (now : String) (body : Fields)
    → IsCareful (handle_validate checks c now body)
unfolding handle_validate
IsCareful-handle_validate checks c now body = IsCareful-with_lesson c (get "lesson_id" body) _ λ l.
    IsCareful-if_available l _ (elim (Option-cases (verify_block l (get "block_id" body))) [
      | inl unknown ↦ rw unknown (IsCareful-returns _)
      | inr (b, known) ↦
          rw known (IsCareful-check_block checks now l (text (get "block_id" body)) b)
    ])

IsCareful-handle_interview_answer :
    (py : Python) (c : Curriculum) (now : String) (body : Fields)
    → IsCareful (handle_interview_answer py c now body)
unfolding handle_interview_answer grade_answer
IsCareful-handle_interview_answer py c now body =
    IsCareful-with_answer (get "answer_text" body) _ λ answer.
      elim (Option-cases (find_question (λ id. is_text id (get "question_id" body)) c.interview)) [
        | inl unknown ↦ rw unknown (IsCareful-returns _)
        | inr (q, known) ↦ rw known (
            IsCareful-call (record_interview now q.id _ q.concepts) _
              (λ u. Succeeds-returns _ refl))
      ]

IsCareful-dispatch :
    (server : LearningServer) (now path : String) (body : Fields)
    → IsCareful (dispatch server now path body)
unfolding dispatch
IsCareful-dispatch server now path body =
    search
      (
        IsCareful-if, IsCareful-returns, IsCareful-handle_start, IsCareful-handle_step,
        IsCareful-handle_hint, IsCareful-handle_validate, IsCareful-handle_complete,
        IsCareful-handle_interview_answer,
      )
      depth 12

IsCareful-with_body :
    (server : LearningServer) (now path : String) (body : Option Fields)
    → IsCareful (with_body server now path body)
IsCareful-with_body server now path none = IsCareful-returns _
IsCareful-with_body server now path (some body) = IsCareful-dispatch server now path body

IsCareful-admit :
    (server : LearningServer) (now : String) (request : Request) (path : String)
    (refusal : Option Refusal)
    → IsCareful (admit server now request path refusal)
unfolding admit
IsCareful-admit server now request path none =
    IsCareful-with_body server now path (read_body server.python request)
IsCareful-admit server now request path (some refusal) = IsCareful-returns _

IsCareful-do_post :
    (server : LearningServer) (now : String) (request : Request)
    → IsCareful (do_post server now request)
unfolding do_post
IsCareful-do_post server now request =
    IsCareful-bind (of_result (path_of server.python request)) _ (IsReading-of_result _) λ path.
      IsCareful-bind (of_result (same_origin server.python server.port request.headers)) _
        (IsReading-of_result _) (IsCareful-admit server now request path)

-- A POST that is answered with an error status, 400 or more, has changed neither the learner's records
-- nor the file they are saved in, whatever its path, its headers and its body.
pub do_post-refused :
    (server : LearningServer) (now : String) (request : Request) (p q : Shared) (reply : Reply)
    → run (do_post server now request) p ≡ (ok reply, q)
    → is_error reply ≡ true
    → q ≡ p
do_post-refused server now request p q reply ran bad =
    run-IsCareful (do_post server now request) p q reply (IsCareful-do_post server now request) ran
      bad
