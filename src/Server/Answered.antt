-- ===== src/Server/Answered.antt =====
-- Every POST to learning/server/app.py whose target and `Origin` can be read ends with an answer, over a
-- curriculum that the loader accepts.
use flight_test_lab.Prelude.{
  String, Bool, true, false, Option, none, some, str_eq, Option-cases, inl, inr,
}
use flight_test_lab.Json.{Fields, get, member}
use flight_test_lab.Result.{Result, ok, err}
use flight_test_lab.Curriculum.{Lesson, Curriculum, text, is_text}
use flight_test_lab.Progress.{State, Slot, Raised, Outcome as Seen, type_error, value, absent, null}
use flight_test_lab.Progress.Store.{record_validation, record_interview}
use flight_test_lab.Progress.Store.Safety.{IsOk, IsComplete}
use flight_test_lab.Progress.Store.Methods.{Safe-record_validation, Safe-record_interview}
use flight_test_lab.Progress.Completion.{validation_passed}
use flight_test_lab.Progress.Completion.Gates.{IsFull, HasValue}
use flight_test_lab.Progress.Record.{is_true, previous_passed}
use flight_test_lab.Dict
use flight_test_lab.Dict.{AllValues-get}
use flight_test_lab.Validators.{Registry, Outcome, finished, crashed}
use flight_test_lab.Server.Thread.{call, of_result, is_shutting_down}
use flight_test_lab.Server.Request.{Python, Request, Refusal, read_body}
use flight_test_lab.Server.Origin.{same_origin}
use flight_test_lab.Server.Checks.{
  seen_before, settle_check, after_check, run_check, check_block, handle_validate, verify_block,
  args_of, is_historical,
}
use flight_test_lab.Server.Interview.{find_question, grade_answer, handle_interview_answer}
use flight_test_lab.Server.Router.{LearningServer, dispatch, path_of, with_body, admit, do_post}
use flight_test_lab.Server.Safety.{
  Answers, Answers-returns, Answers-bind, Answers-of_result, Answers-call, Answers-ask, Answers-if,
  Answers-is_shutting_down,
}
use flight_test_lab.Server.Servable.{IsUsable}
use flight_test_lab.Server.Posts.{
  Answers-with_lesson, Answers-if_available, Answers-with_answer, Answers-handle_start,
  Answers-handle_step, Answers-handle_hint, Answers-handle_complete,
}

passed-IsOk :
    (block_id : String) (vs : Slot (Dict.Dict Seen))
    → HasValue vs
    → IsOk (elim vs as (λ _. Result Raised Bool) [
      | absent ↦ ok false
      | null ↦ err type_error
      | value os ↦ ok (is_true (previous_passed block_id os))
    ])
passed-IsOk block_id (value os) h = tt
passed-IsOk block_id absent h = absurd h
passed-IsOk block_id null h = absurd h

validation_passed-IsOk :
    (s : State) (id block_id : String) → IsComplete s → IsOk (validation_passed s id block_id)
unfolding validation_passed
validation_passed-IsOk s id block_id h = elim (Option-cases (Dict.get id s.lessons)) [
  | inl new ↦ rw (new, validation_passed) tt
  | inr (r, kept) ↦
      rw (kept, validation_passed)
        (passed-IsOk block_id r.validations
          (AllValues-get IsFull id s.lessons h.lessons kept).validations)
]

Answers-seen_before :
    (id block_id : String) (historical : Bool) → Answers (seen_before id block_id historical)
Answers-seen_before id block_id true =
    Answers-ask (λ p. validation_passed p.state id block_id)
      (λ p h. validation_passed-IsOk p.state id block_id h)
Answers-seen_before id block_id false = Answers-returns _

Answers-settle_check :
    (now : String) (l : Lesson) (block_id : String) (b : Fields) (outcome : Outcome)
    → Answers (settle_check now l block_id b outcome)
unfolding settle_check
Answers-settle_check now l block_id b outcome =
    Answers-bind (seen_before l.id block_id (is_historical b)) _
      (Answers-seen_before l.id block_id (is_historical b))
      λ seen.
        Answers-bind (call (record_validation now l.id block_id _ _ _ _)) _
          (Answers-call _ (Safe-record_validation now l.id block_id _ _ _ _))
          (λ u. Answers-returns _)

Answers-after_check :
    (now : String) (l : Lesson) (block_id : String) (b : Fields) (outcome : Outcome)
    → Answers (after_check now l block_id b outcome)
unfolding after_check
Answers-after_check now l block_id b (crashed trace error) =
    Answers-settle_check now l block_id b (crashed trace error)
Answers-after_check now l block_id b (finished result) =
    Answers-bind is_shutting_down _ Answers-is_shutting_down λ down.
      Answers-if down _ _ (Answers-returns _)
        (Answers-settle_check now l block_id b (finished result))

Answers-run_check :
    (checks : Registry) (now : String) (l : Lesson) (block_id : String) (b args : Fields)
    → Answers (run_check checks now l block_id b args)
unfolding run_check
Answers-run_check checks now l block_id b args =
    Answers-bind is_shutting_down _ Answers-is_shutting_down
      λ down. Answers-if down _ _ (Answers-returns _) (Answers-after_check now l block_id b _)

Answers-check_block :
    (checks : Registry) (now : String) (l : Lesson) (block_id : String) (b : Fields)
    → Answers (check_block checks now l block_id b)
unfolding check_block
Answers-check_block checks now l block_id b = elim (Option-cases (args_of (member "args" b))) [
  | inl bad ↦ rw (bad, check_block) (Answers-returns _)
  | inr (args, good) ↦ rw (good, check_block) (Answers-run_check checks now l block_id b args)
]

Answers-handle_validate :
    (checks : Registry) (c : Curriculum) (now : String) (body : Fields)
    → IsUsable c
    → Answers (handle_validate checks c now body)
unfolding handle_validate
Answers-handle_validate checks c now body usable =
    Answers-with_lesson c (get "lesson_id" body) _ usable λ l servable.
      Answers-if_available l _ (elim (Option-cases (verify_block l (get "block_id" body))) [
        | inl unknown ↦ rw unknown (Answers-returns _)
        | inr (b, known) ↦
            rw known (Answers-check_block checks now l (text (get "block_id" body)) b)
      ])

Answers-handle_interview_answer :
    (py : Python) (c : Curriculum) (now : String) (body : Fields)
    → Answers (handle_interview_answer py c now body)
unfolding handle_interview_answer grade_answer
Answers-handle_interview_answer py c now body =
    Answers-with_answer (get "answer_text" body) _ λ answer.
      elim (Option-cases (find_question (λ id. is_text id (get "question_id" body)) c.interview)) [
        | inl unknown ↦ rw unknown (Answers-returns _)
        | inr (q, known) ↦ rw known (
            Answers-bind (call (record_interview now q.id _ q.concepts)) _
              (Answers-call _ (Safe-record_interview now q.id _ q.concepts))
              (λ u. Answers-returns _))
      ]

Answers-dispatch :
    (server : LearningServer) (now path : String) (body : Fields)
    → IsUsable server.curriculum
    → Answers (dispatch server now path body)
unfolding dispatch
Answers-dispatch server now path body usable =
    Answers-if (str_eq path "/api/start") _ _ (Answers-handle_start _ now body usable) (
      Answers-if (str_eq path "/api/step") _ _ (Answers-handle_step server.python _ now body usable)
        (Answers-if (str_eq path "/api/hint") _ _ (Answers-handle_hint _ body usable) (
          Answers-if (str_eq path "/api/validate") _ _
            (Answers-handle_validate server.checks _ now body usable)
            (Answers-if (str_eq path "/api/complete") _ _
              (Answers-handle_complete _ now body usable)
              (Answers-if (str_eq path "/api/interview/answer") _ _
                (Answers-handle_interview_answer server.python _ now body) (Answers-returns _))))))

Answers-with_body :
    (server : LearningServer) (now path : String) (body : Option Fields)
    → IsUsable server.curriculum
    → Answers (with_body server now path body)
Answers-with_body server now path none usable = Answers-returns _
Answers-with_body server now path (some body) usable = Answers-dispatch server now path body usable

Answers-admit :
    (server : LearningServer) (now : String) (request : Request) (path : String)
    (refusal : Option Refusal)
    → IsUsable server.curriculum
    → Answers (admit server now request path refusal)
unfolding admit
Answers-admit server now request path none usable =
    Answers-with_body server now path (read_body server.python request) usable
Answers-admit server now request path (some refusal) usable = Answers-returns _

-- The request target is a URL, and the `Origin`, if there is one, a URL whose port can be read.
abbrev pub IsReadable : LearningServer → Request → Type 0
IsReadable server request =
    IsOk (path_of server.python request)
    × IsOk (same_origin server.python server.port request.headers)

pub Answers-do_post :
    (server : LearningServer) (now : String) (request : Request)
    → IsUsable server.curriculum
    → IsReadable server request
    → Answers (do_post server now request)
unfolding do_post
Answers-do_post server now request usable readable =
    Answers-bind (of_result (path_of server.python request)) _ (Answers-of_result _ readable.0)
      λ path.
        Answers-bind (of_result (same_origin server.python server.port request.headers)) _
          (Answers-of_result _ readable.1)
          (λ refusal. Answers-admit server now request path refusal usable)
