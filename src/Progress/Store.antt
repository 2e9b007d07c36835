-- ===== src/Progress/Store.antt =====
-- `ProgressStore` of learning/server/progress.py: the methods that change the state. Each holds the
-- lock from its first step to its last, so a call is one step. `now` is what `_now()` answers during
-- the call, and `saved` is the state that the file holds.
pub mod Safety
pub mod Methods
use flight_test_lab.Prelude.{ℕ, ◌+◌, String, Bool, not, ◌&&◌, some, List, [], ◌∷◌, is_empty}
use flight_test_lab.Dict
use flight_test_lab.Dict.{Dict, or_else}
use flight_test_lab.Json.{Json}
use flight_test_lab.Result.{Result, ok}
use flight_test_lab.Exec.{Exec, ◌>>=◌, ◌>>◌, pure, gets, modify, when}
use flight_test_lab.Progress.{
  value, LessonRecord, ConceptEntry, InterviewEntry, State, empty_lesson_record, Raised,
}
use flight_test_lab.Progress.Record.{
  fill, bump, add_once, set_or_raise, count_of, begun, in_progress, bump_concept, seen_at, observe,
  revoked, quiz_answer, explain_answer, reveal, answer_entry,
}

pub record ProgressStore : Type 0 where
  pub state : State
  pub saved : State

abbrev pub Method : Type 0 → Type 0
Method = Exec Raised ProgressStore

-- `_lesson_record_locked`: the record of a lesson, made or filled where needed.
unfoldable pub lesson_record : String → State → LessonRecord
lesson_record lesson_id s = fill (or_else (Dict.get lesson_id s.lessons) empty_lesson_record)

-- Changes of the record of a lesson stand in the state, also if the last of them raised.
unfoldable pub on_record :
    {A : Type 0} → String → (LessonRecord → Result Raised A × LessonRecord) → Method A
on_record lesson_id edit p =
    let (r, changed) = edit (lesson_record lesson_id p.state) in
    (
      r,
      record p { state = record p.state { lessons = Dict.put lesson_id changed p.state.lessons } },
    )

-- `self._state["last_lesson_id"] = lesson_id`
abbrev pub set_last : String → Method (Unit {0})
set_last lesson_id =
    modify (λ p. record p { state = record p.state { last_lesson_id = some lesson_id } })

-- `_save_locked`
abbrev pub save : Method (Unit {0})
save = modify (λ p. record p { saved = p.state })

abbrev entry_total : InterviewEntry → ℕ
entry_total e = count_of e.correct + count_of e.incorrect

sum_entries : Dict InterviewEntry → ℕ
sum_entries [] = 0
sum_entries ((q, e) ∷ d) = entry_total e + sum_entries d

unfoldable pub interview_total : State → ℕ
unfolding sum_entries
interview_total s = sum_entries s.interview

unfoldable pub mark_started : String → String → Method (Unit {0})
mark_started now lesson_id = do
  total ← gets (λ p. interview_total p.state)
  on_record lesson_id λ r.
      let r' = in_progress (begun now total r) in
      set_or_raise r' (λ v. record r' { attempts = v }) (bump r'.attempts)
  set_last lesson_id
  save

unfoldable pub record_step : String → String → Method (Unit {0})
record_step lesson_id block_id = do
  on_record lesson_id
      λ r. set_or_raise r (λ v. record r { steps_done = v }) (add_once block_id r.steps_done)
  set_last lesson_id
  save

-- One round of `_bump_concepts_locked`.
abbrev pub new_concept : ConceptEntry
new_concept = record { correct = value 0; incorrect = value 0; last_seen = some Json.null }

unfoldable pub on_concept : String → String → Bool → Method (Unit {0})
on_concept now concept correct p =
    let (r, e) =
      seen_at now
        (bump_concept correct (or_else (Dict.get concept p.state.concepts) new_concept)) in
    (r, record p { state = record p.state { concepts = Dict.put concept e p.state.concepts } })

unfoldable pub bump_concepts : String → List String → Bool → Method (Unit {0})
bump_concepts now [] correct = pure tt
bump_concepts now (c ∷ cs) correct = on_concept now c correct >> bump_concepts now cs correct

-- What follows a new outcome: the concepts are credited, and a failed mandatory check revokes.
unfoldable pub settle : String → String → Bool → Bool → List String → Method (Unit {0})
settle now lesson_id passed mandatory concepts = do
  when (not (is_empty concepts) && mandatory) (bump_concepts now concepts passed)
  on_record lesson_id (λ r. (ok tt, revoked passed mandatory r))

unfoldable pub record_validation :
    String → String → String → Bool → Bool → List String → Bool → Method (Unit {0})
record_validation now lesson_id block_id passed mandatory concepts historical = do
  stands ← on_record lesson_id (observe now block_id passed historical)
  when (not stands) (settle now lesson_id passed mandatory concepts)
  set_last lesson_id
  save

unfoldable pub record_quiz : String → String → String → Bool → List String → Method (Unit {0})
record_quiz now lesson_id block_id correct concepts = do
  on_record lesson_id (quiz_answer block_id correct)
  bump_concepts now concepts correct
  set_last lesson_id
  save

unfoldable pub record_explain : String → String → String → Bool → List String → Method (Unit {0})
record_explain now lesson_id block_id passed concepts = do
  on_record lesson_id (explain_answer block_id passed)
  bump_concepts now concepts passed
  set_last lesson_id
  save

unfoldable pub record_hint : String → ℕ → Method ℕ
record_hint lesson_id index = do
  mark ← on_record lesson_id (reveal index)
  when mark.0 save
  pure mark.1

abbrev pub new_question : InterviewEntry
new_question = record { correct = value 0; incorrect = value 0; streak = value 0 }

unfoldable pub on_question : String → Bool → Method (Unit {0})
on_question question_id correct p =
    let (r, e) =
      answer_entry correct (or_else (Dict.get question_id p.state.interview) new_question) in
    (
      r,
      record p { state = record p.state { interview = Dict.put question_id e p.state.interview } },
    )

unfoldable pub record_interview : String → String → Bool → List String → Method (Unit {0})
record_interview now question_id correct concepts = do
  on_question question_id correct
  when (not (is_empty concepts)) (bump_concepts now concepts correct)
  save
