-- ===== src/Server/Posts.antt =====
-- The handlers of learning/server/app.py for a lesson's steps end with an answer, over a curriculum that
-- they can rely on.
use flight_test_lab.Prelude.{
  ℕ, ◌<◌, ◌≡◌, String, Bool, true, false, ◌&&◌, ◌||◌, Option, none, some, List, [], ◌∷◌, arith, ltb,
  length, str_eq, Option-cases, inl, inr, Bool-cases,
}
use flight_test_lab.Prelude.Int.{ℤ, pos, negsuc}
use flight_test_lab.Dict
use flight_test_lab.Dict.{Dict, AllValues, AllValues-get}
use flight_test_lab.Result
use flight_test_lab.Result.{Result, ok, err}
use flight_test_lab.Json.{Json, Fields, str, get}
use flight_test_lab.Curriculum.{Lesson, Curriculum, find_block, has_type, quiz_block, explain_block}
use flight_test_lab.Curriculum.Values.{as_int, is_blank}
use flight_test_lab.Progress.{Raised}
use flight_test_lab.Progress.Store.Safety.{IsOk}
use flight_test_lab.Progress.Store.{mark_started, record_step, record_explain, record_hint}
use flight_test_lab.Progress.Store.Methods.{
  Safe-mark_started, Safe-record_step, Safe-record_quiz, Safe-record_explain, Safe-record_hint,
}
use flight_test_lab.Progress.History.{Safe-mark_complete}
use flight_test_lab.Progress.Completion.{Missing, mark_complete}
use flight_test_lab.Server.Thread.{Thread, call, of_result, ◌>>=◌}
use flight_test_lab.Server.Request.{Python}
use flight_test_lab.Server.Payload.{Reply}
use flight_test_lab.Server.Views.{require, lesson_public, resume}
use flight_test_lab.Server.Steps.{
  with_lesson, if_available, handle_start, answer_question, answer_block, answer_explain,
  step_of_kind, handle_step, hint_at, show_hint, with_index, handle_hint, completion_reply,
  handle_complete, with_answer, with_texts, keywords_of,
}
use flight_test_lab.Server.Safety.{
  Answers, Answers-returns, Answers-bind, Answers-of_result, Answers-call, Answers-if,
}
use flight_test_lab.Server.Servable.{IsServable, IsUsable}
use flight_test_lab.Server.Answers.{
  find_block-IsBlock, get_elem?-All, Answers-lesson_public, Answers-resume,
}

pub Answers-with_lesson :
    (c : Curriculum) (id : Json) (handler : Lesson → Thread Reply)
    → IsUsable c
    → ((l : Lesson) → IsServable l → Answers (handler l))
    → Answers (with_lesson c id handler)
unfolding Answers
Answers-with_lesson c (str id) handler usable h = elim (Option-cases (Dict.get id c.lessons)) [
  | inl unknown ↦ rw (unknown, with_lesson) tt
  | inr (l, known) ↦
      rw (known, with_lesson) (h l (AllValues-get IsServable id c.lessons usable.lessons known))
]
Answers-with_lesson c _ handler usable h = tt

pub Answers-if_available : (l : Lesson) (t : Thread Reply) → Answers t → Answers (if_available l t)
Answers-if_available l t h = Answers-if (str_eq l.status "available") t _ h (Answers-returns _)

pub Answers-handle_start :
    (c : Curriculum) (now : String) (body : Fields) → IsUsable c → Answers (handle_start c now body)
unfolding handle_start
Answers-handle_start c now body usable =
    Answers-with_lesson c (get "lesson_id" body) _ usable λ l servable. Answers-if_available l _ (
      Answers-bind (call (mark_started now l.id)) _ (Answers-call _ (Safe-mark_started now l.id))
        λ u.
          Answers-bind (lesson_public c l) _ (Answers-lesson_public c l servable.hints)
            (λ view. Answers-returns _))

Answers-answer_block :
    (l : Lesson) (now block_id kind : String) (b : Fields) (answer : Option ℤ)
    → IsOk (require "answer_index" b)
    → Answers (answer_block l now block_id kind b answer)
Answers-answer_block l now block_id kind b none h = Answers-returns _
Answers-answer_block l now block_id kind b (some answer) h =
    Answers-bind (of_result (require "answer_index" b)) _ (Answers-of_result _ h) λ expected.
      Answers-bind _ _
        (Answers-if (str_eq kind "quiz") _ _
          (Answers-call _ (Safe-record_quiz now l.id block_id _ _))
          (Answers-call _ (Safe-record_step l.id block_id)))
        (λ u. Answers-returns _)

pub find_block-passes :
    (p : Fields → Bool) (bs : List Fields) {b : Fields} → find_block p bs ≡ some b → p b ≡ true
unfolding find_block
find_block-passes p [] e = cc
find_block-passes p (x ∷ xs) {b} e = elim (Bool-cases (p x)) [
  | inl here ↦ let same : x ≡ b = cc (rw here at e) in rw (← same) here
  | inr there ↦ find_block-passes p xs (rw there at e)
]

first_holds : (a b : Bool) → (a && b) ≡ true → a ≡ true
first_holds a b h = ground (arith, h)

Answers-answer_question :
    (l : Lesson) (now block_id kind : String) (body : Fields)
    → IsServable l
    → Answers (answer_question l now block_id kind body)
unfolding answer_question quiz_block
Answers-answer_question l now block_id kind body servable =
    elim (Option-cases (quiz_block l block_id)) [
      | inl unknown ↦ rw (unknown, answer_question) (Answers-returns _)
      | inr (b, known) ↦
          let asks = first_holds _ _ (find_block-passes _ l.blocks known) in
          let there = (find_block-IsBlock _ l.blocks servable.blocks known).asks asks in
          rw (known, answer_question)
            (Answers-if (has_type kind b) _ _
              (Answers-answer_block l now block_id kind b (as_int (get "answer_index" body)) there)
              (Answers-returns _))
    ]

pub Answers-with_answer :
    (v : Json) (handler : String → Thread Reply)
    → ((s : String) → Answers (handler s))
    → Answers (with_answer v handler)
Answers-with_answer (str s) handler h = Answers-if (is_blank s) _ _ (Answers-returns _) (h s)
Answers-with_answer _ handler h = Answers-returns _

Answers-two_reads :
    {A B C : Type 0} (r : Result Raised A) (f : A → Result Raised B) (g : B → Thread C)
    → IsOk (Result.◌>>=◌ r f)
    → ((b : B) → Answers (g b))
    → Answers (of_result r >>= λ a. of_result (f a) >>= g)
unfolding ◌>>=◌
Answers-two_reads (err e) f g h k = absurd h
Answers-two_reads (ok a) f g h k = Answers-bind (of_result (f a)) g (Answers-of_result (f a) h) k

Answers-answer_explain :
    (py : Python) (l : Lesson) (now block_id : String) (body : Fields)
    → IsServable l
    → Answers (answer_explain py l now block_id body)
unfolding answer_explain explain_block
Answers-answer_explain py l now block_id body servable =
    elim (Option-cases (explain_block l block_id)) [
      | inl unknown ↦ rw (unknown, answer_explain) (Answers-returns _)
      | inr (b, known) ↦
          let explains = first_holds _ _ (find_block-passes _ l.blocks known) in
          let block = find_block-IsBlock _ l.blocks servable.blocks known in
          rw (known, answer_explain)
            (Answers-with_answer (get "answer_text" body) _ λ answer.
              Answers-two_reads (require "keywords" b) keywords_of _ (block.listed explains)
                λ keywords.
                  Answers-bind (call (record_explain now l.id block_id _ l.concepts)) _
                    (Answers-call _ (Safe-record_explain now l.id block_id _ l.concepts))
                    λ u.
                      Answers-bind (of_result (require "sample_answer" b)) _
                        (Answers-of_result _ (block.sample explains)) (λ sample. Answers-returns _))
    ]

Answers-step_of_kind :
    (py : Python) (now : String) (l : Lesson) (block_id kind : String) (body : Fields)
    → IsServable l
    → Answers (step_of_kind py now l block_id kind body)
unfolding step_of_kind
Answers-step_of_kind py now l block_id kind body servable =
    Answers-if (str_eq kind "learn" || str_eq kind "do") _ _
      (Answers-bind (call (record_step l.id block_id)) _
        (Answers-call _ (Safe-record_step l.id block_id)) (λ u. Answers-returns _))
      (Answers-if (str_eq kind "quiz" || str_eq kind "predict") _ _
        (Answers-answer_question l now block_id kind body servable)
        (Answers-if (str_eq kind "explain") _ _
          (Answers-answer_explain py l now block_id body servable) (Answers-returns _)))

Answers-with_texts :
    (v w : Json) (handler : String → String → Thread Reply)
    → ((a b : String) → Answers (handler a b))
    → Answers (with_texts v w handler)
Answers-with_texts (str a) (str b) handler h = h a b
Answers-with_texts _ _ handler h = Answers-returns _

pub Answers-handle_step :
    (py : Python) (c : Curriculum) (now : String) (body : Fields)
    → IsUsable c
    → Answers (handle_step py c now body)
unfolding handle_step
Answers-handle_step py c now body usable =
    Answers-with_lesson c (get "lesson_id" body) _ usable λ l servable.
      Answers-with_texts (get "block_id" body) (get "kind" body) _
        λ block_id kind. Answers-step_of_kind py now l block_id kind body servable

Answers-show_hint :
    (l : Lesson) (index : ℕ) → IsServable l → index < length l.hints → Answers (show_hint l index)
unfolding show_hint require ◌>>=◌
Answers-show_hint l index servable below =
    let (hint, there, good) = get_elem?-All l.hints index servable.hints below in
    Answers-bind (call (record_hint l.id index)) _ (Answers-call _ (Safe-record_hint l.id index))
      λ revealed.
        rw (there, hint_at)
          (Answers-bind (of_result (require "level" hint)) _ (Answers-of_result _ good.level)
            λ level.
              Answers-bind (of_result (require "text" hint)) _ (Answers-of_result _ good.text_)
                (λ text. Answers-returns _))

Answers-with_index :
    (n : ℕ) (i : Option ℤ) (handler : ℕ → Thread Reply)
    → ((k : ℕ) → k < n → Answers (handler k))
    → Answers (with_index n i handler)
Answers-with_index n none handler h = Answers-returns _
Answers-with_index n (some (negsuc i)) handler h = Answers-returns _
Answers-with_index n (some (pos i)) handler h = elim (Bool-cases (ltb i n)) [
  | inl below ↦ rw (below, with_index) (h i (ground arith))
  | inr beyond ↦ rw (beyond, with_index) (Answers-returns _)
]

pub Answers-handle_hint :
    (c : Curriculum) (body : Fields) → IsUsable c → Answers (handle_hint c body)
unfolding handle_hint
Answers-handle_hint c body usable =
    Answers-with_lesson c (get "lesson_id" body) _ usable λ l servable.
      Answers-with_index (length l.hints) (as_int (get "index" body)) (show_hint l)
        (λ index below. Answers-show_hint l index servable below)

Answers-completion_reply :
    (c : Curriculum) (answer : Bool × List Missing)
    → IsUsable c
    → Answers (completion_reply c answer)
Answers-completion_reply c (false, missing) usable = Answers-returns _
Answers-completion_reply c (true, missing) usable =
    Answers-bind (resume c) _ (Answers-resume c usable) (λ next. Answers-returns _)

pub Answers-handle_complete :
    (c : Curriculum) (now : String) (body : Fields)
    → IsUsable c
    → Answers (handle_complete c now body)
unfolding handle_complete
Answers-handle_complete c now body usable =
    Answers-with_lesson c (get "lesson_id" body) _ usable λ l servable.
      Answers-bind (call (mark_complete now l (some c))) _
        (Answers-call _ (Safe-mark_complete c now l))
        (λ answer. Answers-completion_reply c answer usable)
