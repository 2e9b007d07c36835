-- ===== src/Server/Views.antt =====
-- What learning/server/app.py reads for an answer: `_lesson_public`, and the reads that handlers share.
use flight_test_lab.Prelude.{ℕ, zero, suc, String, Bool, Option, none, some, List, [], ◌∷◌}
use flight_test_lab.Dict
use flight_test_lab.Dict.{Dict}
use flight_test_lab.Result
use flight_test_lab.Result.{Result, ok, err}
use flight_test_lab.Json.{Json, Fields, member}
use flight_test_lab.Curriculum.{Lesson, Curriculum}
use flight_test_lab.Progress.{value, LessonRecord, State, Raised, key_error}
use flight_test_lab.Progress.Record.{set_default}
use flight_test_lab.Progress.Completion.{
  Missing, lesson_completion, completion_map, where_last, first_actionable, last_of, orelse,
  some_id,
}
use flight_test_lab.Server.Thread.{Thread, returns, ask, of_result, ◌>>=◌}
use flight_test_lab.Server.Payload.{LessonView}

abbrev pub found : Option Json → Result Raised Json
found none = err key_error
found (some v) = ok v

-- `block[key]`
unfoldable pub require : String → Fields → Result Raised Json
require key block = found (member key block)

-- `int(record.get("hints_used", 0) or 0)`
abbrev pub revealed_count : Option LessonRecord → ℕ
revealed_count none = 0
revealed_count (some r) = elim r.hints_used [ value n ↦ n | _ ↦ 0 ]

-- The level and the text of the first hints.
unfoldable pub reveal_hints : ℕ → List Fields → Result Raised (List (Json × Json))
unfolding require
reveal_hints zero hints = ok []
reveal_hints (suc n) [] = ok []
reveal_hints (suc n) (h ∷ hs) = Result.◌>>=◌ (require "level" h) λ level.
    Result.◌>>=◌ (require "text" h)
      λ text. Result.◌>>=◌ (reveal_hints n hs) (λ rest. ok ((level, text) ∷ rest))

abbrev pub view_of :
    Lesson → List (Json × Json) → Option LessonRecord → Bool → List Missing → LessonView
view_of lesson hints none complete missing = record {
  lesson = lesson;
  revealed_hints = hints;
  status = value "not_started";
  steps_done = value [];
  validations = value [];
  quiz_correct = value [];
  explain_done = value [];
  hints_used = value 0;
  complete = complete;
  missing = missing;
}
view_of lesson hints (some r) complete missing = record {
  lesson = lesson;
  revealed_hints = hints;
  status = set_default r.status (value "not_started");
  steps_done = set_default r.steps_done (value []);
  validations = set_default r.validations (value []);
  quiz_correct = set_default r.quiz_correct (value []);
  explain_done = set_default r.explain_done (value []);
  hints_used = set_default r.hints_used (value 0);
  complete = complete;
  missing = missing;
}

-- `progress.snapshot()`: a copy of the state.
abbrev pub snapshot : Thread State
snapshot = ask (λ p. ok p.state)

unfoldable pub lesson_public : Curriculum → Lesson → Thread LessonView
lesson_public c lesson = do
  state ← snapshot
  completion ← ask (λ p. lesson_completion p.state lesson (some c))
  hints ← of_result (reveal_hints (revealed_count (Dict.get lesson.id state.lessons)) lesson.hints)
  returns (view_of lesson hints (Dict.get lesson.id state.lessons) completion.0 completion.1)

-- `resume_lesson_id`: the map is made under the lock, and the last lesson is read under the lock again.
unfoldable pub resume : Curriculum → Thread String
resume c = do
  complete ← ask (λ p. completion_map p.state c)
  last ← ask (λ p. ok p.state.last_lesson_id)
  of_result (
      some_id (
        orelse (where_last c complete last) (
          orelse (first_actionable c complete c.ordered_lesson_ids)
            (last_of c.ordered_lesson_ids))))
