-- ===== src/Server/Steps.antt =====
-- The handlers of learning/server/app.py for a lesson's steps: `/api/start`, `/api/step`, `/api/hint`,
-- `/api/complete`. `now` is the time of the request.
use flight_test_lab.Prelude.{
  ℕ, String, Bool, true, false, not, ◌&&◌, ◌||◌, Option, none, some, List, [], ◌∷◌, str_eq, leb,
  ltb, length, is_empty, get_elem?, if◌then◌else◌,
}
use flight_test_lab.Prelude.Int.{ℤ, pos, negsuc, eq_ℤ}
use flight_test_lab.Dict
use flight_test_lab.Result.{Result, ok, err}
use flight_test_lab.Json.{Json, Fields, str, arr, member, get}
use flight_test_lab.Curriculum.{Lesson, Curriculum, has_type, quiz_block, explain_block}
use flight_test_lab.Curriculum.Values.{as_int, strings, is_blank}
use flight_test_lab.Progress.{Raised, type_error, index_error}
use flight_test_lab.Progress.Store.{
  mark_started, record_step, record_quiz, record_explain, record_hint,
}
use flight_test_lab.Progress.Completion.{Missing, mark_complete}
use flight_test_lab.Server.Text.{is_within, word_count}
use flight_test_lab.Server.Thread.{Thread, returns, call, of_result, ◌>>=◌, ◌>>◌}
use flight_test_lab.Server.Request.{
  Python, Refusal, lesson_id_not_text, unknown_lesson, lesson_unavailable, step_fields_required,
  unknown_block, answer_index_required, answer_text_required, unknown_kind, hint_out_of_range,
}
use flight_test_lab.Server.Payload.{Payload, Reply, failure, success, refused}
use flight_test_lab.Server.Views.{require, lesson_public, resume}

abbrev pub fail : ℕ → Refusal → Thread Reply
fail status message = returns (failure status message)

-- `_lesson_or_404`, and what follows with the lesson
abbrev pub with_lesson : Curriculum → Json → (Lesson → Thread Reply) → Thread Reply
with_lesson c (str id) handler = elim (Dict.get id c.lessons) [
  | none ↦ fail 404 (unknown_lesson id)
  | some lesson ↦ handler lesson
]
with_lesson c _ handler = fail 400 lesson_id_not_text

-- `lesson.status != "available"`
abbrev pub if_available : Lesson → Thread Reply → Thread Reply
if_available lesson handler =
    if str_eq lesson.status "available" then handler else fail 409 lesson_unavailable

unfoldable pub handle_start : Curriculum → String → Fields → Thread Reply
handle_start c now body = with_lesson c (get "lesson_id" body) λ lesson. if_available lesson do
  call (mark_started now lesson.id)
  view ← lesson_public c lesson
  returns (success (Payload.lesson view))

-- `answer == block["answer_index"]`; the loader admits an integer there.
abbrev pub is_answer : ℤ → Json → Bool
is_answer answer v = elim (as_int v) [ none ↦ false | some n ↦ eq_ℤ answer n ]

-- `block.get("reveal", block.get("explanation", ""))`
abbrev pub explanation_of : Fields → Json
explanation_of block = elim (member "reveal" block) [
  | some v ↦ v
  | none ↦ elim (member "explanation" block) [ some v ↦ v | none ↦ str "" ]
]

-- The answer to a quiz or predict block.
abbrev pub answer_block : Lesson → String → String → String → Fields → Option ℤ → Thread Reply
answer_block lesson now block_id kind block none = fail 400 answer_index_required
answer_block lesson now block_id kind block (some answer) = do
  expected ← of_result (require "answer_index" block)
  (if str_eq kind "quiz"
      then call (record_quiz now lesson.id block_id (is_answer answer expected) lesson.concepts)
      else call (record_step lesson.id block_id))
  returns (success (Payload.graded (is_answer answer expected) (explanation_of block) expected))

unfoldable pub answer_question : Lesson → String → String → String → Fields → Thread Reply
answer_question lesson now block_id kind body = elim (quiz_block lesson block_id) [
  | none ↦ fail 404 (unknown_block kind)
  | some block ↦
      if has_type kind block
      then answer_block lesson now block_id kind block (as_int (get "answer_index" body))
      else fail 404 (unknown_block kind)
]

-- The keywords of a block; the loader admits a list of texts there.
abbrev pub keywords_of : Json → Result Raised (List String)
keywords_of (arr vs) = elim (strings vs) [ none ↦ err type_error | some words ↦ ok words ]
keywords_of _ = err type_error

-- `[kw for kw in keywords if kw.lower() in lowered]`
unfoldable pub hits : Python → String → List String → List String
hits py lowered [] = []
hits py lowered (kw ∷ kws) =
    if is_within (py.lower kw) lowered then kw ∷ hits py lowered kws else hits py lowered kws

abbrev pub min_explain_words : ℕ
min_explain_words = 12

abbrev pub explains : Python → String → List String → Bool
explains py answer keywords =
    not (is_empty (hits py (py.lower answer) keywords)) && leb min_explain_words (word_count answer)

abbrev pub is_too_short : Python → String → List String → Bool
is_too_short py answer keywords =
    not (is_empty (hits py (py.lower answer) keywords)) && ltb (word_count answer) min_explain_words

-- A text that `answer_text` has to be.
abbrev pub with_answer : Json → (String → Thread Reply) → Thread Reply
with_answer (str answer) handler =
    if is_blank answer then fail 400 answer_text_required else handler answer
with_answer _ handler = fail 400 answer_text_required

unfoldable pub answer_explain : Python → Lesson → String → String → Fields → Thread Reply
answer_explain py lesson now block_id body = elim (explain_block lesson block_id) [
  | none ↦ fail 404 (unknown_block "explain")
  | some block ↦ with_answer (get "answer_text" body) λ answer. do
    listed ← of_result (require "keywords" block)
    keywords ← of_result (keywords_of listed)
    call (record_explain now lesson.id block_id (explains py answer keywords) lesson.concepts)
    sample ← of_result (require "sample_answer" block)
    returns (
        success (
          Payload.explained (explains py answer keywords) (hits py (py.lower answer) keywords)
            (is_too_short py answer keywords) sample))
]

-- `_handle_step` by its kind
unfoldable pub step_of_kind : Python → String → Lesson → String → String → Fields → Thread Reply
step_of_kind py now lesson block_id kind body =
    if str_eq kind "learn" || str_eq kind "do"
    then (call (record_step lesson.id block_id) >> returns (success Payload.recorded))
    else if str_eq kind "quiz" || str_eq kind "predict"
    then answer_question lesson now block_id kind body
    else if str_eq kind "explain"
    then answer_explain py lesson now block_id body
    else fail 400 (unknown_kind kind)

abbrev pub with_texts : Json → Json → (String → String → Thread Reply) → Thread Reply
with_texts (str a) (str b) handler = handler a b
with_texts _ _ handler = fail 400 step_fields_required

unfoldable pub handle_step : Python → Curriculum → String → Fields → Thread Reply
handle_step py c now body = with_lesson c (get "lesson_id" body) λ lesson.
    with_texts (get "block_id" body) (get "kind" body)
      λ block_id kind. step_of_kind py now lesson block_id kind body

-- `lesson.hints[index]`, for an index in range
abbrev pub hint_at : List Fields → ℕ → Result Raised Fields
hint_at hints index = elim (get_elem? hints index) [ none ↦ err index_error | some h ↦ ok h ]

unfoldable pub show_hint : Lesson → ℕ → Thread Reply
show_hint lesson index = do
  revealed ← call (record_hint lesson.id index)
  hint ← of_result (hint_at lesson.hints index)
  level ← of_result (require "level" hint)
  text ← of_result (require "text" hint)
  returns (success (Payload.hint level text (length lesson.hints) revealed))

-- `isinstance(index, int) and 0 <= index < len(hints)`
abbrev pub with_index : ℕ → Option ℤ → (ℕ → Thread Reply) → Thread Reply
with_index n (some (pos i)) handler = if ltb i n then handler i else fail 400 hint_out_of_range
with_index n (some (negsuc i)) handler = fail 400 hint_out_of_range
with_index n none handler = fail 400 hint_out_of_range

unfoldable pub handle_hint : Curriculum → Fields → Thread Reply
handle_hint c body =
    with_lesson c (get "lesson_id" body)
      λ lesson. with_index (length lesson.hints) (as_int (get "index" body)) (show_hint lesson)

-- The answer of `_handle_complete`, by that of `mark_complete`.
abbrev pub completion_reply : Curriculum → Bool × List Missing → Thread Reply
completion_reply c (false, missing) = returns (refused 409 (Payload.incomplete missing))
completion_reply c (true, missing) = do next ← resume c; returns (success (Payload.completed next))

unfoldable pub handle_complete : Curriculum → String → Fields → Thread Reply
handle_complete c now body =
    with_lesson c (get "lesson_id" body)
      λ lesson. call (mark_complete now lesson (some c)) >>= completion_reply c
