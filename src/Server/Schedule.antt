-- ===== src/Server/Schedule.antt =====
-- Threads of learning/server/app.py that run at the same time: any of them takes the next step.
use mathlib.Core.Path.{subst}
use flight_test_lab.Prelude.{◌≡◌, refl, sym, List, [], ◌∷◌, All, ◌⊎◌, inl, inr}
use flight_test_lab.Progress.Store.Safety.{IsComplete}
use flight_test_lab.Server.Thread.{Shared, Thread, returns, raises, step}
use flight_test_lab.Server.Safety.{Answers}

module _ {A : Type 0} where
  pub data Step : List (Thread A) → Shared → List (Thread A) → Shared → Type 0 where
    here :
        {change : Shared → Shared} {next : Shared → Thread A} {ts : List (Thread A)} {p : Shared}
        → Step (step change next ∷ ts) p (next p ∷ ts) (change p)
    there :
        {t : Thread A} {ts us : List (Thread A)} {p q : Shared}
        → Step ts p us q
        → Step (t ∷ ts) p (t ∷ us) q

  pub data Reach : List (Thread A) → Shared → List (Thread A) → Shared → Type 0 where
    stay : {ts : List (Thread A)} {p : Shared} → Reach ts p ts p
    then_ :
        {ts us vs : List (Thread A)} {p q r : Shared}
        → Step ts p us q
        → Reach us q vs r
        → Reach ts p vs r

  -- Every schedule of the threads ends.
  pub data Halts : List (Thread A) → Type 0 where
    halts :
        {ts : List (Thread A)}
        → ((us : List (Thread A)) (p q : Shared) (s : Step ts p us q) → Halts us)
        → Halts ts

  -- The thread has ended with an answer.
  abbrev pub IsAnswered : Thread A → Type 0
  IsAnswered (returns a) = Unit
  IsAnswered (raises e) = ⊥
  IsAnswered (step change next) = ⊥

  Step-Answers :
      {ts us : List (Thread A)} {p q : Shared}
      → Step ts p us q
      → IsComplete p.progress.state
      → All Answers ts
      → IsComplete q.progress.state × All Answers us
  unfolding Answers
  Step-Answers (here {p = p}) c h = ((h.0 p c).0, ((h.0 p c).1, h.1))
  Step-Answers (there s) c h = let (c', k) = Step-Answers s c h.1 in (c', (h.0, k))

  pub Reach-Answers :
      {ts us : List (Thread A)} {p q : Shared}
      → Reach ts p us q
      → IsComplete p.progress.state
      → All Answers ts
      → IsComplete q.progress.state × All Answers us
  Reach-Answers stay c h = (c, h)
  Reach-Answers (then_ s r) c h = let (c', k) = Step-Answers s c h in Reach-Answers r c' k

  -- Where no thread raises, some thread can go on or every one has answered.
  pub Answers-next :
      (ts : List (Thread A)) (p : Shared)
      → All Answers ts
      → ((us : List (Thread A)) × (q : Shared) × Step ts p us q) ⊎ All IsAnswered ts
  unfolding Answers
  Answers-next [] p h = inr tt
  Answers-next (step change next ∷ ts) p h = inl (_, _, here)
  Answers-next (raises e ∷ ts) p h = absurd h.0
  Answers-next (returns a ∷ ts) p h = elim (Answers-next ts p h.1) [
    | inl (us, q, s) ↦ inl (_, q, there s)
    | inr done ↦ inr (tt, done)
  ]

  -- What a step of the first thread leaves.
  abbrev Goes : Thread A → Shared → List (Thread A) → List (Thread A) → Type 0
  Goes (step change next) p ts us = us ≡ next p ∷ ts
  Goes (returns a) p ts us = ⊥
  Goes (raises e) p ts us = ⊥

  first_or_rest :
      {t : Thread A} {ts us : List (Thread A)} {p q : Shared}
      → Step (t ∷ ts) p us q
      → Goes t p ts us ⊎ ((vs : List (Thread A)) × (us ≡ t ∷ vs) × Step ts p vs q)
  first_or_rest here = inl refl
  first_or_rest (there s) = inr (_, refl, s)

  Halts-beside :
      (t : Thread A) {ts : List (Thread A)}
      → ((p : Shared) (ts us : List (Thread A)) → Halts ts → Goes t p ts us → Halts us)
      → Halts ts
      → Halts (t ∷ ts)
  Halts-beside t goes (halts h) = halts (λ us p q s. elim (first_or_rest s) [
    | inl first ↦ goes p _ us (halts h) first
    | inr (vs, e, s') ↦ subst Halts (sym e) (Halts-beside t goes (h vs p q s'))
  ])

  Halts-cons : (t : Thread A) {ts : List (Thread A)} → Halts ts → Halts (t ∷ ts)
  Halts-cons (returns a) h = Halts-beside (returns a) (λ p ts us k g. absurd g) h
  Halts-cons (raises e) h = Halts-beside (raises e) (λ p ts us k g. absurd g) h
  Halts-cons (step change next) h =
      Halts-beside (step change next) (λ p ts us k g. subst Halts (sym g) (Halts-cons (next p) k)) h

  none_left : {us : List (Thread A)} {p q : Shared} → Step [] p us q → ⊥
  none_left s = elim s [ ]

  pub threads_halt : (ts : List (Thread A)) → Halts ts
  threads_halt [] = halts (λ us p q s. absurd (none_left s))
  threads_halt (t ∷ ts) = Halts-cons t (threads_halt ts)

  -- Threads that raise nothing can be brought to their answers.
  pub Halts-finish :
      (ts : List (Thread A)) (p : Shared)
      → Halts ts
      → IsComplete p.progress.state
      → All Answers ts
      → (us : List (Thread A)) × (q : Shared) × Reach ts p us q × All IsAnswered us
  Halts-finish ts p (halts h) c k = elim (Answers-next ts p k) [
    | inr done ↦ (ts, p, stay, done)
    | inl (us, q, s) ↦
        let (c', k') = Step-Answers s c k in
        let (vs, r, reached, done) = Halts-finish us q (h us p q s) c' k' in
        (vs, r, then_ s reached, done)
  ]
