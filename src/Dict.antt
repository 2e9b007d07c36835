-- ===== src/Dict.antt =====
-- Python's `dict` with text keys, in insertion order: `d.get(k)`, `d[k] = v`, `k in d`,
-- `d.setdefault(k, v)` and `d.values()`.
use flight_test_lab.Prelude.{
  String, ◌≡◌, refl, Bool-cases, inl, inr, Bool, true, false, Option, none, some, List, [], ◌∷◌,
  arith, str_eq, eq_iff, if◌then◌else◌,
}

abbrev pub Dict {ℓ} : Type ℓ → Type ℓ
Dict V = List (String × V)

module _ {ℓ} {V : Type ℓ} where
  unfoldable pub get : String → Dict V → Option V
  get k [] = none
  get k ((j, v) ∷ d) = if str_eq j k then some v else get k d

  unfoldable pub put : String → V → Dict V → Dict V
  put k v [] = (k, v) ∷ []
  put k v ((j, w) ∷ d) = if str_eq j k then (j, v) ∷ d else (j, w) ∷ put k v d

  abbrev pub is_some : Option V → Bool
  is_some none = false
  is_some (some v) = true

  abbrev pub has : String → Dict V → Bool
  has k d = is_some (get k d)

  abbrev pub or_else : Option V → V → V
  or_else none d = d
  or_else (some v) d = v

  abbrev pub get_or : String → V → Dict V → V
  get_or k w d = or_else (get k d) w

  unfoldable pub values : Dict V → List V
  values [] = []
  values ((j, v) ∷ d) = v ∷ values d

  -- Reading after a write.
  pub get-put :
      (k j : String) (v : V) (d : Dict V)
      → get j (put k v d) ≡ (if str_eq k j then some v else get j d)
  unfolding get put
  get-put k j v [] = refl
  get-put k j v ((i, w) ∷ d) = ground (arith, eq_iff k j, eq_iff i k, eq_iff i j, get-put k j v d)

-- What holds of every value is what every read finds.
abbrev pub AllValues {ℓ κ} : {V : Type ℓ} → (V → Type κ) → Dict V → Type κ
AllValues P [] = Unit
AllValues P ((k, v) ∷ d) = P v × AllValues P d

pub AllValues-get {ℓ κ} :
    {V : Type ℓ} (P : V → Type κ) (k : String) (d : Dict V) {v : V}
    → AllValues P d
    → get k d ≡ some v
    → P v
unfolding get
AllValues-get P k [] h e = cc
AllValues-get P k ((j, w) ∷ d) {v} h e = elim (Bool-cases (str_eq j k)) [
  | inl here ↦ let same : w ≡ v = cc (rw here at e) in rw (← same) h.0
  | inr there ↦ AllValues-get P k d h.1 (rw there at e)
]

pub AllValues-put {ℓ κ} :
    {V : Type ℓ} (P : V → Type κ) (k : String) (v : V) (d : Dict V)
    → AllValues P d
    → P v
    → AllValues P (put k v d)
unfolding put
AllValues-put P k v [] h p = (p, tt)
AllValues-put P k v ((j, w) ∷ d) h p = elim (Bool-cases (str_eq j k)) [
  | inl here ↦ rw here (p, h.1)
  | inr there ↦ rw there (h.0, AllValues-put P k v d h.1 p)
]
