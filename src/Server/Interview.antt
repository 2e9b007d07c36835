-- ===== src/Server/Interview.antt =====
-- `_handle_interview_answer` and `_handle_interview_next` of learning/server/app.py. The choice that
-- `random.choices` makes is a parameter: a place among the questions, by their weights.
use flight_test_lab.Prelude.{
  ℕ, String, Bool, not, Option, none, some, List, [], ◌∷◌, str_eq, is_empty, get_elem?,
  if◌then◌else◌,
}
use flight_test_lab.Dict
use flight_test_lab.Dict.{Dict}
use flight_test_lab.Json.{Fields, get}
use flight_test_lab.Result.{Result, ok, err}
use flight_test_lab.Curriculum.{Curriculum, InterviewQuestion, is_text}
use flight_test_lab.Progress.{Raised, index_error, stop_iteration}
use flight_test_lab.Progress.Store.{record_interview}
use flight_test_lab.Progress.Queries.{Fraction, concept_mastery, all_concepts, weights_from}
use flight_test_lab.Server.Thread.{Thread, returns, call, ask, of_result, ◌>>=◌, ◌>>◌}
use flight_test_lab.Server.Request.{Python, unknown_question}
use flight_test_lab.Server.Payload.{Payload, Reply, success}
use flight_test_lab.Server.Steps.{fail, hits, with_answer}

-- `next((q for q in interview if q.id == id), None)`
unfoldable pub find_question : (String → Bool) → List InterviewQuestion → Option InterviewQuestion
find_question p [] = none
find_question p (q ∷ qs) = if p q.id then some q else find_question p qs

unfoldable pub grade_answer : Python → String → InterviewQuestion → String → Thread Reply
grade_answer py now q answer = do
  let matched = hits py (py.lower answer) q.keywords
  call (record_interview now q.id (not (is_empty matched)) q.concepts)
  returns (success (Payload.answered (not (is_empty matched)) matched q.sample_answer))

unfoldable pub handle_interview_answer : Python → Curriculum → String → Fields → Thread Reply
handle_interview_answer py c now body = with_answer (get "answer_text" body) λ answer.
    elim (find_question (λ id. is_text id (get "question_id" body)) c.interview) [
      | none ↦ fail 404 unknown_question
      | some q ↦ grade_answer py now q answer
    ]

-- `{q.id: q.concepts for q in curriculum.interview}`
unfoldable pub questions_from : Dict (List String) → List InterviewQuestion → Dict (List String)
questions_from d [] = d
questions_from d (q ∷ qs) = questions_from (Dict.put q.id q.concepts d) qs

-- The question at the chosen place; `random.choices` of nothing raises an IndexError.
abbrev pub chosen_id : (List Fraction → ℕ) → Dict Fraction → Result Raised String
chosen_id choose weights = elim (get_elem? weights (choose (Dict.values weights))) [
  | none ↦ err index_error
  | some (id, w) ↦ ok id
]

abbrev pub next_question : Curriculum → String → Result Raised InterviewQuestion
next_question c id = elim (find_question (λ i. str_eq i id) c.interview) [
  | none ↦ err stop_iteration
  | some q ↦ ok q
]

-- `interview_weights` takes the lock twice, so it is two steps.
unfoldable pub handle_interview_next : (List Fraction → ℕ) → Curriculum → Thread Reply
handle_interview_next choose c = do
  let questions = questions_from [] c.interview
  mastery ← ask (λ p. concept_mastery p.state (all_concepts questions))
  weights ← ask (λ p. weights_from p.state mastery questions)
  id ← of_result (chosen_id choose weights)
  q ← of_result (next_question c id)
  returns (success (Payload.question q.id q.question))
