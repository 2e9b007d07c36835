-- ===== src/Server/Safety.antt =====
-- Request threads of learning/server/app.py that end with an answer, whatever other threads do between
-- their steps.
use flight_test_lab.Prelude.{Bool, true, false, if◌then◌else◌}
use flight_test_lab.Result.{Result, ok, err}
use flight_test_lab.Progress.{Raised}
use flight_test_lab.Progress.Store.{ProgressStore, Method}
use flight_test_lab.Progress.Store.Safety.{IsComplete, IsOk, Safe}
use flight_test_lab.Server.Thread.{
  Shared, Thread, returns, raises, step, ◌>>=◌, of_result, call, ask, is_shutting_down,
}

-- From complete records every step of the thread leaves complete records, and it ends with an answer
-- and not with an exception.
unfoldable pub Answers {ℓ} : {A : Type ℓ} → Thread A → Type 0
Answers (returns a) = Unit
Answers (raises e) = ⊥
Answers (step change next) =
    (p : Shared)
    → IsComplete p.progress.state
    → IsComplete (change p).progress.state × Answers (next p)

pub Answers-returns : {A : Type 0} (a : A) → Answers (returns a)
unfolding Answers
Answers-returns a = tt

pub Answers-bind :
    {A B : Type 0} (t : Thread A) (f : A → Thread B)
    → Answers t
    → ((a : A) → Answers (f a))
    → Answers (t >>= f)
unfolding Answers ◌>>=◌
Answers-bind (returns a) f h k = k a
Answers-bind (raises e) f h k = absurd h
Answers-bind (step change next) f h k = λ p c. ((h p c).0, Answers-bind (next p) f (h p c).1 k)

pub Answers-of_result : {A : Type 0} (r : Result Raised A) → IsOk r → Answers (of_result r)
unfolding Answers
Answers-of_result (ok a) h = tt
Answers-of_result (err e) h = absurd h

pub Answers-call : {A : Type 0} (m : Method A) → Safe m → Answers (call m)
unfolding Answers
Answers-call m safe =
    λ p c. ((safe.at p.progress c).1, Answers-of_result (m p.progress).0 (safe.at p.progress c).0)

pub Answers-ask :
    {A : Type 0} (f : ProgressStore → Result Raised A)
    → ((p : ProgressStore) → IsComplete p.state → IsOk (f p))
    → Answers (ask f)
unfolding Answers
Answers-ask f h = λ p c. (c, Answers-of_result (f p.progress) (h p.progress c))

pub Answers-is_shutting_down : Answers is_shutting_down
unfolding Answers
Answers-is_shutting_down = λ p c. (c, tt)

pub Answers-if :
    {A : Type 0} (b : Bool) (t u : Thread A) → Answers t → Answers u → Answers (if b then t else u)
Answers-if true t u h k = h
Answers-if false t u h k = k
