-- ===== src/Progress/History.antt =====
-- Any use of the store of learning/server/progress.py: the calls that the request handlers make, in
-- any order, one after another since each holds the lock.
use flight_test_lab.Prelude.{ℕ, String, ◌≡◌, refl, Bool, true, false, List, [], ◌∷◌, some, arith}
use flight_test_lab.Dict.{AllValues-put}
use flight_test_lab.Result.{Result, ok, err}
use flight_test_lab.Exec.{◌>>=◌, pure}
use flight_test_lab.Curriculum.{Lesson, Curriculum}
use flight_test_lab.Progress.{LessonRecord, Raised}
use flight_test_lab.Progress.Store.{
  ProgressStore, Method, on_record, mark_started, record_step, record_validation, record_quiz,
  record_explain, record_hint, record_interview,
}
use flight_test_lab.Progress.Store.Safety.{
  IsComplete, IsOk, Safe, Safe-bind, Safe-pure, lesson_record-IsFull,
}
use flight_test_lab.Progress.Store.Methods.{
  Safe-mark_started, Safe-record_step, Safe-record_validation, Safe-record_quiz,
  Safe-record_explain, Safe-record_hint, Safe-record_interview,
}
use flight_test_lab.Progress.Completion.{Missing, mark_complete, lesson_completion, completed}
use flight_test_lab.Progress.Completion.Gates.{IsFull}
use flight_test_lab.Progress.Completion.Walk.{Decides, lesson_completion_total}

-- A call of a method that changes the state, with its arguments.
pub data Call : Type 0 where
  start : String → Call
  step : String → String → Call
  validation : String → String → Bool → Bool → List String → Bool → Call
  quiz : String → String → Bool → List String → Call
  explain : String → String → Bool → List String → Call
  hint : String → ℕ → Call
  interview : String → Bool → List String → Call
  complete : Lesson → Call

-- The answer of a call is dropped: its exception is kept.
abbrev discard : {A : Type 0} → Method A → Method (Unit {0})
discard m = m >>= λ _. pure tt

unfoldable pub perform : Curriculum → String → Call → Method (Unit {0})
perform c now (start id) = mark_started now id
perform c now (step id block_id) = record_step id block_id
perform c now (validation id block_id passed mandatory concepts historical) =
    record_validation now id block_id passed mandatory concepts historical
perform c now (quiz id block_id correct concepts) = record_quiz now id block_id correct concepts
perform c now (explain id block_id passed concepts) = record_explain now id block_id passed concepts
perform c now (hint id index) = discard (record_hint id index)
perform c now (interview id correct concepts) = record_interview now id correct concepts
perform c now (complete lesson) = discard (mark_complete now lesson (some c))

-- The calls of a history, each at its time; the first exception ends it.
unfoldable pub perform_all : Curriculum → List (String × Call) → Method (Unit {0})
perform_all c [] = pure tt
perform_all c ((now, call) ∷ calls) = perform c now call >>= λ _. perform_all c calls

completed-IsFull : (now : String) (r : LessonRecord) → IsFull r → IsFull (completed now r)
completed-IsFull now r h = ground arith

completing :
    (c : Curriculum) (now : String) (l : Lesson) (p : ProgressStore) (b : Bool)
    (r : Result Raised (Bool × List Missing))
    → IsComplete p.state
    → Decides b r
    → lesson_completion p.state l (some c) ≡ r
    → IsOk (mark_complete now l (some c) p).0 × IsComplete (mark_complete now l (some c) p).1.state
unfolding mark_complete on_record
completing c now l p b (err x) h d e = absurd d
completing c now l p b (ok (false, ms)) h d e = rw (e, mark_complete) (tt, h)
completing c now l p b (ok (true, ms)) h d e =
    rw (e, mark_complete)
      (
        tt,
        record {
          lessons =
              AllValues-put IsFull l.id _ p.state.lessons h.lessons
                (completed-IsFull now _ (lesson_record-IsFull l.id p.state h.lessons));
          concepts = h.concepts;
          interview = h.interview;
        },
      )

pub Safe-mark_complete :
    (c : Curriculum) (now : String) (l : Lesson) → Safe (mark_complete now l (some c))
Safe-mark_complete c now l = record {
  at = λ p h.
      let (b, d) = lesson_completion_total p.state c h.lessons l in
      completing c now l p b _ h d refl;
}

Safe-discard : {A : Type 0} (m : Method A) → Safe m → Safe (discard m)
Safe-discard m h = Safe-bind m (λ _. pure tt) h (λ _. Safe-pure tt)

Safe-perform : (c : Curriculum) (now : String) (call : Call) → Safe (perform c now call)
unfolding perform
Safe-perform c now (start id) = Safe-mark_started now id
Safe-perform c now (step id block_id) = Safe-record_step id block_id
Safe-perform c now (validation id block_id passed mandatory concepts historical) =
    Safe-record_validation now id block_id passed mandatory concepts historical
Safe-perform c now (quiz id block_id correct concepts) =
    Safe-record_quiz now id block_id correct concepts
Safe-perform c now (explain id block_id passed concepts) =
    Safe-record_explain now id block_id passed concepts
Safe-perform c now (hint id index) = Safe-discard _ (Safe-record_hint id index)
Safe-perform c now (interview id correct concepts) = Safe-record_interview now id correct concepts
Safe-perform c now (complete lesson) = Safe-discard _ (Safe-mark_complete c now lesson)

Safe-perform_all : (c : Curriculum) (calls : List (String × Call)) → Safe (perform_all c calls)
unfolding perform_all
Safe-perform_all c [] = Safe-pure tt
Safe-perform_all c ((now, call) ∷ calls) =
    Safe-bind (perform c now call) (λ _. perform_all c calls) (Safe-perform c now call)
      (λ _. Safe-perform_all c calls)

-- From complete records, and so from a new store, any sequence of the methods' calls raises nothing,
-- with any curriculum, and leaves records that are complete again.
pub perform_all-IsComplete :
    (c : Curriculum) (calls : List (String × Call)) (p : ProgressStore)
    → IsComplete p.state
    → IsOk (perform_all c calls p).0 × IsComplete (perform_all c calls p).1.state
perform_all-IsComplete c calls p h = (Safe-perform_all c calls).at p h
