-- ===== src/Exec.antt =====
-- Methods that change an object and may raise: what was written before a raise stays written.
use flight_test_lab.Prelude.{Bool, ◌≡◌, ap, if◌then◌else◌}
use flight_test_lab.Result.{Result, ok, err}

abbrev pub Exec : Type 0 → Type 0 → Type 0 → Type 0
Exec E S A = S → Result E A × S

infixl 10 ◌>>=◌ ◌>>◌
abbrev pub ◌>>=◌ : {E S A B : Type 0} → Exec E S A → (A → Exec E S B) → Exec E S B
◌>>=◌ m f s = let (r, s') = m s in elim r [ ok a ↦ f a s' | err e ↦ (err e, s') ]

abbrev pub ◌>>◌ : {E S B : Type 0} → Exec E S (Unit {0}) → Exec E S B → Exec E S B
m >> k = m >>= λ _. k

abbrev pub pure : {E S A : Type 0} → A → Exec E S A
pure a s = (ok a, s)

abbrev pub gets : {E S A : Type 0} → (S → A) → Exec E S A
gets f s = (ok (f s), s)

abbrev pub modify : {E S : Type 0} → (S → S) → Exec E S (Unit {0})
modify f s = (ok tt, f s)

-- `if test: action`
abbrev pub when : {E S : Type 0} → Bool → Exec E S (Unit {0}) → Exec E S (Unit {0})
when test m s = if test then m s else (ok tt, s)

-- A block after the end of its first step.
abbrev pub resume : {E S A B : Type 0} → (A → Exec E S B) → Result E A × S → Result E B × S
resume f (r, s) = elim r [ ok a ↦ f a s | err e ↦ (err e, s) ]

pub >>=-of-ok :
    {E S A B : Type 0} (m : Exec E S A) (f : A → Exec E S B) (s t : S) {a : A}
    → m s ≡ (ok a, t)
    → (m >>= f) s ≡ f a t
>>=-of-ok m f s t e = ap (resume f) e

pub >>=-of-err :
    {E S A B : Type 0} (m : Exec E S A) (f : A → Exec E S B) (s t : S) {e : E}
    → m s ≡ (err e, t)
    → (m >>= f) s ≡ (err e, t)
>>=-of-err m f s t e = ap (resume f) e
