-- ===== src/Server/Effects.antt =====
-- What the threads of learning/server/app.py may do to the shared state.
use flight_test_lab.Prelude.{◌≡◌, refl, ◌∙◌, ◌⊎◌, inl, inr, Bool, true, false, if◌then◌else◌}
use flight_test_lab.Result.{Result, ok, err}
use flight_test_lab.Progress.{Raised}
use flight_test_lab.Progress.Store.{ProgressStore, Method}
use flight_test_lab.Server.Thread.{
  Shared, Thread, returns, raises, step, ◌>>=◌, of_result, call, ask, is_shutting_down, run,
}
use flight_test_lab.Server.Payload.{Reply, is_error}

-- No step changes anything.
unfoldable pub IsReading : {A : Type 0} → Thread A → Type 0
IsReading (returns a) = Unit
IsReading (raises e) = Unit
IsReading (step change next) = (p : Shared) → (change p ≡ p) × IsReading (next p)

-- Whatever is answered is no error.
unfoldable pub Succeeds : Thread Reply → Type 0
Succeeds (returns r) = is_error r ≡ false
Succeeds (raises e) = Unit
Succeeds (step change next) = (p : Shared) → Succeeds (next p)

-- A step that changes anything is followed by no error answer.
unfoldable pub IsCareful : Thread Reply → Type 0
unfolding Succeeds
IsCareful (returns r) = Unit
IsCareful (raises e) = Unit
IsCareful (step change next) =
    (p : Shared) → ((change p ≡ p) × IsCareful (next p)) ⊎ Succeeds (next p)

module _ {A : Type 0} where
  pub IsReading-bind :
      {B : Type 0} (t : Thread A) (f : A → Thread B)
      → IsReading t
      → ((a : A) → IsReading (f a))
      → IsReading (t >>= f)
  unfolding IsReading ◌>>=◌
  IsReading-bind (returns a) f h k = k a
  IsReading-bind (raises e) f h k = tt
  IsReading-bind (step change next) f h k = λ p. ((h p).0, IsReading-bind (next p) f (h p).1 k)

  pub IsReading-of_result : (r : Result Raised A) → IsReading (of_result r)
  unfolding IsReading
  IsReading-of_result (ok a) = tt
  IsReading-of_result (err e) = tt

  pub IsReading-ask : (f : ProgressStore → Result Raised A) → IsReading (ask f)
  unfolding IsReading
  IsReading-ask f = λ p. (refl, IsReading-of_result (f p.progress))

  pub IsReading-returns : (a : A) → IsReading (returns a)
  unfolding IsReading
  IsReading-returns a = tt

  pub IsReading-if :
      (b : Bool) (t u : Thread A) → IsReading t → IsReading u → IsReading (if b then t else u)
  IsReading-if true t u h k = h
  IsReading-if false t u h k = k

  pub run-IsReading : (t : Thread A) (p : Shared) → IsReading t → (run t p).1 ≡ p
  unfolding run IsReading
  run-IsReading (returns a) p h = refl
  run-IsReading (raises e) p h = refl
  run-IsReading (step change next) p h = run-IsReading (next p) (change p) (h p).1 ∙ (h p).0

  pub Succeeds-bind :
      (t : Thread A) (f : A → Thread Reply) → ((a : A) → Succeeds (f a)) → Succeeds (t >>= f)
  unfolding Succeeds ◌>>=◌
  Succeeds-bind (returns a) f h = h a
  Succeeds-bind (raises e) f h = tt
  Succeeds-bind (step change next) f h = λ p. Succeeds-bind (next p) f h

  pub IsCareful-bind :
      (t : Thread A) (f : A → Thread Reply)
      → IsReading t
      → ((a : A) → IsCareful (f a))
      → IsCareful (t >>= f)
  unfolding IsReading IsCareful ◌>>=◌
  IsCareful-bind (returns a) f h k = k a
  IsCareful-bind (raises e) f h k = tt
  IsCareful-bind (step change next) f h k = λ p. inl ((h p).0, IsCareful-bind (next p) f (h p).1 k)

  -- A change, and then success.
  pub IsCareful-call :
      (m : Method A) (f : A → Thread Reply) → ((a : A) → Succeeds (f a)) → IsCareful (call m >>= f)
  unfolding IsCareful ◌>>=◌
  IsCareful-call m f h = λ p. inr (Succeeds-bind (of_result (m p.progress).0) f h)

pub IsReading-raises : (A : Type 0) (e : Raised) → IsReading {A = A} (raises e)
unfolding IsReading
IsReading-raises A e = tt

pub Succeeds-returns : (r : Reply) → is_error r ≡ false → Succeeds (returns r)
unfolding Succeeds
Succeeds-returns r h = h

pub IsCareful-returns : (r : Reply) → IsCareful (returns r)
unfolding IsCareful
IsCareful-returns r = tt

pub IsCareful-if :
    (b : Bool) (t u : Thread Reply) → IsCareful t → IsCareful u → IsCareful (if b then t else u)
IsCareful-if true t u h k = h
IsCareful-if false t u h k = k

pub IsReading-is_shutting_down : IsReading is_shutting_down
unfolding IsReading
IsReading-is_shutting_down = λ p. (refl, tt)

run-Succeeds :
    (t : Thread Reply) (p q : Shared) (r : Reply)
    → Succeeds t
    → run t p ≡ (ok r, q)
    → is_error r ≡ false
unfolding run Succeeds
run-Succeeds (returns s) p q r h e = let same : s ≡ r = cc in rw (← same) h
run-Succeeds (raises x) p q r h e = cc
run-Succeeds (step change next) p q r h e = run-Succeeds (next p) (change p) q r (h p) e

-- A careful thread that ends with an error, run alone, leaves all as it was.
pub run-IsCareful :
    (t : Thread Reply) (p q : Shared) (r : Reply)
    → IsCareful t
    → run t p ≡ (ok r, q)
    → is_error r ≡ true
    → q ≡ p
unfolding run IsCareful
run-IsCareful (returns s) p q r h e bad = cc
run-IsCareful (raises x) p q r h e bad = cc
run-IsCareful (step change next) p q r h e bad = elim (h p) [
  | inl (same, careful) ↦ run-IsCareful (next p) (change p) q r careful e bad ∙ same
  | inr good ↦ cc (run-Succeeds (next p) (change p) q r good e)
]

pub ruleset reading_rules =
    (IsReading-bind, IsReading-of_result, IsReading-ask, IsReading-returns, IsReading-if)
