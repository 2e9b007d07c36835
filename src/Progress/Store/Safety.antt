-- ===== src/Progress/Store/Safety.antt =====
-- No method of `ProgressStore` raises on a state whose records have all their fields, and none leaves
-- a record without one.
use flight_test_lab.Prelude.{String, Bool, true, false, arith, Option-cases, inl, inr}
use flight_test_lab.Dict
use flight_test_lab.Dict.{Dict, AllValues, AllValues-get, AllValues-put, or_else}
use flight_test_lab.Result.{Result, ok, err}
use flight_test_lab.Exec.{◌>>=◌, pure, gets, when}
use flight_test_lab.Progress.{
  LessonRecord, ConceptEntry, InterviewEntry, State, empty_lesson_record, Raised,
}
use flight_test_lab.Progress.Record.{fill}
use flight_test_lab.Progress.Completion.Gates.{IsFull, HasValue}
use flight_test_lab.Progress.Store.{ProgressStore, Method, lesson_record, on_record, set_last, save}

pub record IsFullConcept (e : ConceptEntry) : Type 0 where
  pub correct : HasValue e.correct
  pub incorrect : HasValue e.incorrect

pub record IsFullEntry (e : InterviewEntry) : Type 0 where
  pub correct : HasValue e.correct
  pub incorrect : HasValue e.incorrect
  pub streak : HasValue e.streak

pub record IsComplete (s : State) : Type 0 where
  pub lessons : AllValues IsFull s.lessons
  pub concepts : AllValues IsFullConcept s.concepts
  pub interview : AllValues IsFullEntry s.interview

abbrev pub IsOk : {A : Type 0} → Result Raised A → Type 0
IsOk (ok a) = Unit
IsOk (err e) = ⊥

-- From complete records the method answers, and leaves complete records.
pub record Safe {A : Type 0} (m : Method A) : Type 0 where
  pub at : (p : ProgressStore) → IsComplete p.state → IsOk (m p).0 × IsComplete (m p).1.state

abbrev SafeEnd : {A : Type 0} → Result Raised A × ProgressStore → Type 0
SafeEnd (r, p) = IsOk r × IsComplete p.state

module _ {A B : Type 0} where
  continue-Safe :
      (r : Result Raised A) (p : ProgressStore) (f : A → Method B)
      → SafeEnd (r, p)
      → ((a : A) → Safe (f a))
      → SafeEnd
          (elim r as (λ _. Result Raised B × ProgressStore) [ ok a ↦ f a p | err e ↦ (err e, p) ])
  continue-Safe (ok a) p f h safe = (safe a).at p h.1
  continue-Safe (err e) p f h safe = absurd h.0

  pub Safe-bind :
      (m : Method A) (f : A → Method B) → Safe m → ((a : A) → Safe (f a)) → Safe (m >>= f)
  Safe-bind m f sm sf = record { at = λ p h. continue-Safe (m p).0 (m p).1 f (sm.at p h) sf }

pub Safe-when : (b : Bool) (m : Method (Unit {0})) → Safe m → Safe (when b m)
Safe-when true m h = h
Safe-when false m h = record { at = λ p c. (tt, c) }

pub Safe-pure : {A : Type 0} (a : A) → Safe (pure {E = Raised} {S = ProgressStore} a)
Safe-pure a = record { at = λ p c. (tt, c) }

pub Safe-gets : {A : Type 0} (f : ProgressStore → A) → Safe (gets {E = Raised} f)
Safe-gets f = record { at = λ p c. (tt, c) }

pub Safe-set_last : (id : String) → Safe (set_last id)
Safe-set_last id = record {
  at = λ p c. (tt, record { lessons = c.lessons; concepts = c.concepts; interview = c.interview });
}

pub Safe-save : Safe save
Safe-save = record { at = λ p c. (tt, c) }

fill-IsFull : (r : LessonRecord) → IsFull r → IsFull (fill r)
unfolding fill
fill-IsFull r h = ground arith

empty-IsFull : IsFull (fill empty_lesson_record)
unfolding fill
empty-IsFull = ground arith

pub lesson_record-IsFull :
    (id : String) (s : State) → AllValues IsFull s.lessons → IsFull (lesson_record id s)
unfolding lesson_record
lesson_record-IsFull id s h = elim (Option-cases (Dict.get id s.lessons)) [
  | inl new ↦ rw new empty-IsFull
  | inr (r, kept) ↦ rw kept (fill-IsFull r (AllValues-get IsFull id s.lessons h kept))
]

-- A change of one record is safe if it is so on every full record.
pub Safe-on_record :
    {A : Type 0} (id : String) (edit : LessonRecord → Result Raised A × LessonRecord)
    → ((r : LessonRecord) → IsFull r → IsOk (edit r).0 × IsFull (edit r).1)
    → Safe (on_record id edit)
unfolding on_record
Safe-on_record id edit h = record {
  at = λ p c.
      let (good, kept) = h (lesson_record id p.state) (lesson_record-IsFull id p.state c.lessons) in
      (
        good,
        record {
          lessons = AllValues-put IsFull id _ p.state.lessons c.lessons kept;
          concepts = c.concepts;
          interview = c.interview;
        },
      );
}

pub ruleset safe_rules =
    (Safe-bind, Safe-when, Safe-pure, Safe-gets, Safe-set_last, Safe-save, Safe-on_record)
