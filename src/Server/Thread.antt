-- ===== src/Server/Thread.antt =====
-- A request thread of learning/server/app.py: what it does between its accesses to shared state is its
-- own. A call of `ProgressStore` holds the store's lock and a test of `shutting_down` is atomic, so each
-- is one step. Threads are interleaved at these steps.
use flight_test_lab.Prelude.{Bool}
use flight_test_lab.Result.{Result, ok, err}
use flight_test_lab.Progress.{Raised}
use flight_test_lab.Progress.Store.{ProgressStore, Method}

-- What the request threads share.
pub record Shared : Type 0 where
  pub progress : ProgressStore
  pub shutting_down : Bool

pub data Thread {ℓ} (A : Type ℓ) : Type ℓ where
  -- the answer
  returns : A → Thread A
  -- an exception that leaves the handler: the connection closes without an answer
  raises : Raised → Thread A
  -- one step on the shared state, and what follows it
  step : (Shared → Shared) → (Shared → Thread A) → Thread A

infixl 5 ◌>>=◌ ◌>>◌
unfoldable pub ◌>>=◌ {ℓ κ} : {A : Type ℓ} {B : Type κ} → Thread A → (A → Thread B) → Thread B
returns a >>= f = f a
raises e >>= f = raises e
step change next >>= f = step change (λ p. next p >>= f)

abbrev pub ◌>>◌ {κ} : {B : Type κ} → Thread (Unit {0}) → Thread B → Thread B
t >> u = t >>= λ _. u

abbrev pub of_result {ℓ} : {A : Type ℓ} → Result Raised A → Thread A
of_result (ok a) = returns a
of_result (err e) = raises e

-- A call of a method of the store.
abbrev pub call : {A : Type 0} → Method A → Thread A
call m = step (λ p. record p { progress = (m p.progress).1 }) (λ p. of_result (m p.progress).0)

-- A call of a method that only reads.
abbrev pub ask : {A : Type 0} → (ProgressStore → Result Raised A) → Thread A
ask f = step (λ p. p) (λ p. of_result (f p.progress))

-- `self.server.shutting_down.is_set()`
abbrev pub is_shutting_down : Thread Bool
is_shutting_down = step (λ p. p) (λ p. returns p.shutting_down)

-- The thread alone, to its end.
unfoldable pub run {ℓ} : {A : Type ℓ} → Thread A → Shared → Result Raised A × Shared
run (returns a) p = (ok a, p)
run (raises e) p = (err e, p)
run (step change next) p = run (next p) (change p)
