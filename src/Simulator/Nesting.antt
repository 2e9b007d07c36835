-- ===== src/Simulator/Nesting.antt =====
-- `exceeds_nesting_limit` of simulator/simulator.py: the walk over an explicit stack, and the depth
-- of a value that it is compared with.
use flight_test_lab.Prelude.{
  ℕ, zero, suc, ◌+◌, ◌<◌, ◌≡◌, refl, Bool, true, false, ◌||◌, Option, none, some, List, [], ◌∷◌,
  max, arith, ltb, if◌then◌else◌,
}
use flight_test_lab.Json.{
  Json, Items, Fields, null, bool, int, float, str, arr, obj, nil, cons, end, field,
}

abbrev pub max_nesting_depth : ℕ
max_nesting_depth = 100

-- The top of the stack stands first.
abbrev Stack : Type 0
Stack = List (Json × ℕ)

-- `stack.extend((item, depth + 1) for item in current)`
push_items : Items → ℕ → Stack → Stack
push_items nil d s = s
push_items (cons v vs) d s = push_items vs d ((v, d) ∷ s)

push_values : Fields → ℕ → Stack → Stack
push_values end d s = s
push_values (field k v fs) d s = push_values fs d ((v, d) ∷ s)

expand : Json → ℕ → Stack → Stack
expand (obj fs) d s = push_values fs (d + 1) s
expand (arr vs) d s = push_items vs (d + 1) s
expand _ d s = s

-- `while stack`; `none` when the fuel runs out.
walk : ℕ → ℕ → Stack → Option Bool
walk zero limit s = none
walk (suc fuel) limit [] = some false
walk (suc fuel) limit ((v, d) ∷ s) =
    let rest = walk fuel limit (expand v d s) in if ltb limit d then some true else rest

mutual
  size : Json → ℕ
  size null = 1
  size (bool b) = 1
  size (int n) = 1
  size (float x) = 1
  size (str s) = 1
  size (arr vs) = suc (size_items vs)
  size (obj fs) = suc (size_fields fs)

  size_items : Items → ℕ
  size_items nil = 0
  size_items (cons v vs) = size v + size_items vs

  size_fields : Fields → ℕ
  size_fields end = 0
  size_fields (field k v fs) = size v + size_fields fs

-- The fuel is one more than the number of values to visit.
pub exceeds_nesting_limit : Json → ℕ → Option Bool
unfolding walk expand push_items push_values size
exceeds_nesting_limit value limit = walk (suc (size value)) limit ((value, 1) ∷ [])

-- How many containers are open around the deepest value inside this one.
unfoldable mutual
  pub height : Json → ℕ
  height null = 0
  height (bool b) = 0
  height (int n) = 0
  height (float x) = 0
  height (str s) = 0
  height (arr vs) = height_items vs
  height (obj fs) = height_fields fs

  pub height_items : Items → ℕ
  height_items nil = 0
  height_items (cons v vs) = max (suc (height v)) (height_items vs)

  pub height_fields : Fields → ℕ
  height_fields end = 0
  height_fields (field k v fs) = max (suc (height v)) (height_fields fs)

-- The nesting of a value counts the value itself.
abbrev pub depth : Json → ℕ
depth v = suc (height v)

deep : ℕ → Stack → Bool
deep limit [] = false
deep limit ((v, d) ∷ s) = ltb limit (d + height v) || deep limit s

total : Stack → ℕ
total [] = 0
total ((v, d) ∷ s) = size v + total s

deep-push_items :
    (vs : Items) (limit d : ℕ) (s : Stack)
    → ltb limit d ≡ false
    → deep limit (push_items vs (d + 1) s) ≡ (ltb limit (d + height_items vs) || deep limit s)
unfolding deep push_items height
deep-push_items nil limit d s h = ground arith
deep-push_items (cons v vs) limit d s h =
    ground (arith, deep-push_items vs limit d ((v, d + 1) ∷ s) h)

deep-push_values :
    (fs : Fields) (limit d : ℕ) (s : Stack)
    → ltb limit d ≡ false
    → deep limit (push_values fs (d + 1) s) ≡ (ltb limit (d + height_fields fs) || deep limit s)
unfolding deep push_values height
deep-push_values end limit d s h = ground arith
deep-push_values (field k v fs) limit d s h =
    ground (arith, deep-push_values fs limit d ((v, d + 1) ∷ s) h)

deep-expand :
    (v : Json) (limit d : ℕ) (s : Stack)
    → ltb limit d ≡ false
    → deep limit (expand v d s) ≡ (ltb limit (d + height v) || deep limit s)
unfolding expand height
deep-expand (arr vs) limit d s h = deep-push_items vs limit d s h
deep-expand (obj fs) limit d s h = deep-push_values fs limit d s h
deep-expand _ limit d s h = ground arith

total-push_items :
    (vs : Items) (d : ℕ) (s : Stack) → total (push_items vs d s) ≡ size_items vs + total s
unfolding total push_items size
total-push_items nil d s = omega arith
total-push_items (cons v vs) d s = omega (arith, total-push_items vs d ((v, d) ∷ s))

total-push_values :
    (fs : Fields) (d : ℕ) (s : Stack) → total (push_values fs d s) ≡ size_fields fs + total s
unfolding total push_values size
total-push_values end d s = omega arith
total-push_values (field k v fs) d s = omega (arith, total-push_values fs d ((v, d) ∷ s))

total-expand : (v : Json) (d : ℕ) (s : Stack) → total (expand v d s) < size v + total s
unfolding expand size
total-expand (arr vs) d s = omega (arith, total-push_items vs (d + 1) s)
total-expand (obj fs) d s = omega (arith, total-push_values fs (d + 1) s)
total-expand _ d s = omega arith

walk-eq-deep :
    (fuel limit : ℕ) (s : Stack) → total s < fuel → walk fuel limit s ≡ some (deep limit s)
unfolding walk deep total
walk-eq-deep zero limit s h = elim h [ ]
walk-eq-deep (suc fuel) limit [] h = refl
walk-eq-deep (suc fuel) limit ((v, d) ∷ s) h =
    ground
      (arith, deep-expand v limit d s, total-expand v d s, walk-eq-deep fuel limit (expand v d s))

-- For every value and every limit the walk ends within its fuel, and it answers true exactly when
-- the value nests deeper than the limit.
pub exceeds_nesting_limit-eq-depth :
    (value : Json) (limit : ℕ) → exceeds_nesting_limit value limit ≡ some (ltb limit (depth value))
unfolding exceeds_nesting_limit deep total
exceeds_nesting_limit-eq-depth value limit =
    ground (arith, walk-eq-deep (suc (size value)) limit ((value, 1) ∷ []))
