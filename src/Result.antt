-- ===== src/Result.antt =====
-- A value or the exception that the code raises in its place.
use flight_test_lab.Prelude.{Bool, true, false, ◌≡◌, refl}

pub data Result {ℓ} (E : Type 0) (A : Type ℓ) : Type ℓ where
  ok : A → Result E A
  err : E → Result E A

-- `if test: raise e`
abbrev pub raise_if : {E : Type 0} → Bool → E → Result E (Unit {0})
raise_if true e = err e
raise_if false e = ok tt

-- The rest of the code runs on the value.
infixl 5 ◌>>=◌ ◌>>◌
abbrev pub ◌>>=◌ {ℓ κ} :
    {A : Type ℓ} {B : Type κ} {E : Type 0} → Result E A → (A → Result E B) → Result E B
err raised >>= rest = err raised
ok value >>= rest = rest value

abbrev pub ◌>>◌ {κ} : {E : Type 0} {B : Type κ} → Result E (Unit {0}) → Result E B → Result E B
check >> rest = check >>= λ done. rest

-- What a guard that did not raise says of its test.
pub raise_if-eq-ok {ℓ} :
    {E : Type 0} {B : Type ℓ} (test : Bool) (e : E) (m : Result E B) {b : B}
    → (raise_if test e >> m) ≡ ok b
    → (test ≡ false) × (m ≡ ok b)
raise_if-eq-ok true e m h = cc
raise_if-eq-ok false e m h = (refl, h)

-- What a block that did not raise says of its first step.
pub >>=-eq-ok {ℓ κ} :
    {A : Type ℓ} {B : Type κ} {E : Type 0} (first : Result E A) (rest : A → Result E B) {b : B}
    → (first >>= rest) ≡ ok b
    → (a : A) × (first ≡ ok a) × (rest a ≡ ok b)
>>=-eq-ok (err raised) rest h = cc
>>=-eq-ok (ok value) rest h = (value, refl, h)

-- Equal answers have equal values.
pub ok-injective {ℓ} :
    {E : Type 0} {A : Type ℓ} {a b : A} → ◌≡◌ {A = Result E A} (ok a) (ok b) → a ≡ b
ok-injective h = cc
