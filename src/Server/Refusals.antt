-- ===== src/Server/Refusals.antt =====
-- The handlers of learning/server/app.py for a lesson's steps change nothing before an error answer.
use flight_test_lab.Prelude.{
  refl, inl, inr, String, Bool, true, false, if◌then◌else◌, Option, none, some, str_eq,
  Option-cases, ℕ,
}
use flight_test_lab.Prelude.Int.{ℤ, pos, negsuc}
use flight_test_lab.Dict
use flight_test_lab.Json.{Json, Fields, str, get}
use flight_test_lab.Curriculum.{Lesson, Curriculum, quiz_block, explain_block}
use flight_test_lab.Curriculum.Values.{as_int}
use flight_test_lab.Progress.Store.{Method, mark_started, record_step, record_hint, record_explain}
use flight_test_lab.Server.Thread.{Thread, ◌>>=◌, of_result, call}
use flight_test_lab.Server.Request.{Python}
use flight_test_lab.Server.Payload.{Reply}
use flight_test_lab.Server.Views.{require, lesson_public}
use flight_test_lab.Server.Steps.{
  with_lesson, if_available, handle_start, answer_question, answer_block, answer_explain,
  step_of_kind, handle_step, show_hint, with_index, handle_hint, with_answer, with_texts,
}
use flight_test_lab.Server.Effects.{
  Succeeds, Succeeds-bind, Succeeds-returns, IsReading-of_result, IsCareful, IsCareful-bind,
  IsCareful-call, IsCareful-returns, IsCareful-if,
}

pub IsCareful-with_lesson :
    (c : Curriculum) (id : Json) (handler : Lesson → Thread Reply)
    → ((l : Lesson) → IsCareful (handler l))
    → IsCareful (with_lesson c id handler)
IsCareful-with_lesson c (str id) handler h = elim (Option-cases (Dict.get id c.lessons)) [
  | inl unknown ↦ rw (unknown, with_lesson) (IsCareful-returns _)
  | inr (l, known) ↦ rw (known, with_lesson) (h l)
]
IsCareful-with_lesson c _ handler h = IsCareful-returns _

pub IsCareful-if_available :
    (l : Lesson) (t : Thread Reply) → IsCareful t → IsCareful (if_available l t)
IsCareful-if_available l t h =
    IsCareful-if (str_eq l.status "available") t _ h (IsCareful-returns _)

pub IsCareful-handle_start :
    (c : Curriculum) (now : String) (body : Fields) → IsCareful (handle_start c now body)
unfolding handle_start
IsCareful-handle_start c now body = IsCareful-with_lesson c (get "lesson_id" body) _ λ l.
    IsCareful-if_available l _ (
      IsCareful-call (mark_started now l.id) _
        λ u. Succeeds-bind (lesson_public c l) _ (λ view. Succeeds-returns _ refl))

either_call :
    (b : Bool) (m n : Method (Unit {0})) (f : Unit {0} → Thread Reply)
    → ((u : Unit {0}) → Succeeds (f u))
    → IsCareful ((if b then call m else call n) >>= f)
either_call true m n f h = IsCareful-call m f h
either_call false m n f h = IsCareful-call n f h

IsCareful-answer_block :
    (l : Lesson) (now block_id kind : String) (b : Fields) (answer : Option ℤ)
    → IsCareful (answer_block l now block_id kind b answer)
IsCareful-answer_block l now block_id kind b none = IsCareful-returns _
IsCareful-answer_block l now block_id kind b (some answer) =
    IsCareful-bind (of_result (require "answer_index" b)) _ (IsReading-of_result _)
      (λ expected. either_call (str_eq kind "quiz") _ _ _ (λ u. Succeeds-returns _ refl))

IsCareful-answer_question :
    (l : Lesson) (now block_id kind : String) (body : Fields)
    → IsCareful (answer_question l now block_id kind body)
unfolding answer_question
IsCareful-answer_question l now block_id kind body = elim (Option-cases (quiz_block l block_id)) [
  | inl unknown ↦ rw (unknown, answer_question) (IsCareful-returns _)
  | inr (b, known) ↦
      rw (known, answer_question)
        (IsCareful-if _ _ _
          (IsCareful-answer_block l now block_id kind b (as_int (get "answer_index" body)))
          (IsCareful-returns _))
]

pub IsCareful-with_answer :
    (v : Json) (handler : String → Thread Reply)
    → ((s : String) → IsCareful (handler s))
    → IsCareful (with_answer v handler)
IsCareful-with_answer (str s) handler h = IsCareful-if _ _ _ (IsCareful-returns _) (h s)
IsCareful-with_answer _ handler h = IsCareful-returns _

IsCareful-answer_explain :
    (py : Python) (l : Lesson) (now block_id : String) (body : Fields)
    → IsCareful (answer_explain py l now block_id body)
unfolding answer_explain
IsCareful-answer_explain py l now block_id body = elim (Option-cases (explain_block l block_id)) [
  | inl unknown ↦ rw (unknown, answer_explain) (IsCareful-returns _)
  | inr (b, known) ↦
      rw (known, answer_explain)
        (IsCareful-with_answer (get "answer_text" body) _ λ answer.
          IsCareful-bind (of_result (require "keywords" b)) _ (IsReading-of_result _) λ listed.
            IsCareful-bind (of_result _) _ (IsReading-of_result _) λ keywords.
              IsCareful-call (record_explain now l.id block_id _ l.concepts) _ λ u.
                Succeeds-bind (of_result (require "sample_answer" b)) _
                  (λ sample. Succeeds-returns _ refl))
]

IsCareful-step_of_kind :
    (py : Python) (now : String) (l : Lesson) (block_id kind : String) (body : Fields)
    → IsCareful (step_of_kind py now l block_id kind body)
unfolding step_of_kind
IsCareful-step_of_kind py now l block_id kind body =
    IsCareful-if _ _ _ (IsCareful-call (record_step l.id block_id) _ (λ u. Succeeds-returns _ refl))
      (IsCareful-if _ _ _ (IsCareful-answer_question l now block_id kind body) (
        IsCareful-if _ _ _ (IsCareful-answer_explain py l now block_id body) (IsCareful-returns _)))

IsCareful-with_texts :
    (v w : Json) (handler : String → String → Thread Reply)
    → ((a b : String) → IsCareful (handler a b))
    → IsCareful (with_texts v w handler)
IsCareful-with_texts (str a) (str b) handler h = h a b
IsCareful-with_texts _ _ handler h = IsCareful-returns _

pub IsCareful-handle_step :
    (py : Python) (c : Curriculum) (now : String) (body : Fields)
    → IsCareful (handle_step py c now body)
unfolding handle_step
IsCareful-handle_step py c now body = IsCareful-with_lesson c (get "lesson_id" body) _ λ l.
    IsCareful-with_texts (get "block_id" body) (get "kind" body) _
      λ block_id kind. IsCareful-step_of_kind py now l block_id kind body

IsCareful-show_hint : (l : Lesson) (index : ℕ) → IsCareful (show_hint l index)
unfolding show_hint
IsCareful-show_hint l index = IsCareful-call (record_hint l.id index) _ λ revealed.
    Succeeds-bind (of_result _) _ λ hint.
      Succeeds-bind (of_result (require "level" hint)) _
        λ level. Succeeds-bind (of_result (require "text" hint)) _ (λ text. Succeeds-returns _ refl)

IsCareful-with_index :
    (n : ℕ) (i : Option ℤ) (handler : ℕ → Thread Reply)
    → ((k : ℕ) → IsCareful (handler k))
    → IsCareful (with_index n i handler)
IsCareful-with_index n none handler h = IsCareful-returns _
IsCareful-with_index n (some (negsuc i)) handler h = IsCareful-returns _
IsCareful-with_index n (some (pos i)) handler h = IsCareful-if _ _ _ (h i) (IsCareful-returns _)

pub IsCareful-handle_hint : (c : Curriculum) (body : Fields) → IsCareful (handle_hint c body)
unfolding handle_hint
IsCareful-handle_hint c body =
    IsCareful-with_lesson c (get "lesson_id" body) _
      λ l. IsCareful-with_index _ (as_int (get "index" body)) (show_hint l) (IsCareful-show_hint l)
