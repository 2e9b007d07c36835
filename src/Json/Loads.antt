-- ===== src/Json/Loads.antt =====
-- `json.loads` after its scanner: the hooks `parse_int` and `object_pairs_hook`, applied to a scanned
-- text. The scanner itself is a parameter of the model: it answers a `Scan`.
use flight_test_lab.Prelude.{
  ◌≡◌, refl, ℕ, zero, suc, ◌+◌, ◌-◌, ◌*◌, String, Bool, ◌&&◌, ◌||◌, Option, none, some, List, [],
  ◌∷◌, length, ◌==◌, leb, if◌then◌else◌,
}
use flight_test_lab.Prelude.Int.{ℤ, pos, negsuc}
use flight_test_lab.Json
use flight_test_lab.Json.{Json, Items, Fields, Float}

-- A scanned text, before the hooks: an integer is its characters, an object its pairs in order.
mutual
  pub data Raw : Type 0 where
    null : Raw
    bool : Bool → Raw
    number : List ℕ → Raw
    float : Float → Raw
    str : String → Raw
    arr : RawItems → Raw
    obj : RawPairs → Raw

  pub data RawItems : Type 0 where
    nil : RawItems
    cons : Raw → RawItems → RawItems

  pub data RawPairs : Type 0 where
    end : RawPairs
    pair : String → Raw → RawPairs → RawPairs

pub data Scan : Type 0 where
  tree : Raw → Scan
  value_error recursion_error : Scan

abbrev pub ParseInt : Type 0
ParseInt = List ℕ → Option ℤ

-- An object hook takes the dict built so far and the next pair.
abbrev pub PairHook : Type 0
PairHook = Fields → String → Json → Option Fields

-- The value of a run of decimal digits after `n`; `none` at any other character.
unfoldable pub digits_value : ℕ → List ℕ → Option ℕ
digits_value n [] = some n
digits_value n (c ∷ cs) =
    let rest = digits_value (n * 10 + (c - b'0')) cs in
    if leb b'0' c && leb c b'9' then rest else none

-- `token.lstrip("-")`
unfoldable pub lstrip_minus : List ℕ → List ℕ
lstrip_minus [] = []
lstrip_minus (c ∷ cs) = let rest = lstrip_minus cs in if c == b'-' then rest else c ∷ cs

abbrev negate : Option ℕ → Option ℤ
negate none = none
negate (some zero) = some (pos 0)
negate (some (suc n)) = some (negsuc n)

abbrev plain : Option ℕ → Option ℤ
plain none = none
plain (some n) = some (pos n)

-- The digits of a token behind one sign.
abbrev digits_of : List ℕ → List ℕ
digits_of [] = []
digits_of (c ∷ cs) = if c == b'-' then cs else c ∷ cs

abbrev signed : List ℕ → Option ℤ
signed [] = none
signed (c ∷ cs) = if c == b'-' then negate (digits_value 0 cs) else plain (digits_value 0 (c ∷ cs))

-- Whether the interpreter converts `n` digits under the limit; a limit of 0 is none at all.
abbrev pub allows : ℕ → ℕ → Bool
allows limit n = limit == 0 || leb n limit

-- `int(token)` under the interpreter's digit limit.
unfoldable pub int_of : ℕ → ParseInt
unfolding digits_value
int_of limit token = if allows limit (length (digits_of token)) then signed token else none

-- `dict(pairs)`: the last value of a repeated key, at the place of the first.
unfoldable pub last_wins : PairHook
last_wins seen key value = some (Json.put key value seen)

abbrev pub bind {ℓ κ} : {A : Type ℓ} {B : Type κ} → Option A → (A → Option B) → Option B
bind none f = none
bind (some a) f = f a

-- Where every way to go on raises, the whole raises.
pub bind-none {ℓ κ} :
    {A : Type ℓ} {B : Type κ} (o : Option A) (f : A → Option B)
    → ((a : A) → f a ≡ none)
    → bind o f ≡ none
bind-none none f h = refl
bind-none (some a) f h = h a

-- What a chain that did not raise says of its first step.
pub bind-some {ℓ κ} :
    {A : Type ℓ} {B : Type κ} (o : Option A) (f : A → Option B) {b : B}
    → bind o f ≡ some b
    → (a : A) × (o ≡ some a) × (f a ≡ some b)
bind-some none f h = cc
bind-some (some a) f h = (a, refl, h)

-- The hooks over a scanned text; `none` is a ValueError that a hook raised.
unfoldable mutual
  pub build : ParseInt → PairHook → Raw → Option Json
  build parse hook null = some Json.null
  build parse hook (bool b) = some (Json.bool b)
  build parse hook (number token) = bind (parse token) (λ n. some (Json.int n))
  build parse hook (float x) = some (Json.float x)
  build parse hook (str s) = some (Json.str s)
  build parse hook (arr vs) = bind (build_items parse hook vs) (λ ws. some (Json.arr ws))
  build parse hook (obj ps) = bind (build_pairs parse hook ps Fields.end) (λ fs. some (Json.obj fs))

  pub build_items : ParseInt → PairHook → RawItems → Option Items
  build_items parse hook nil = some Items.nil
  build_items parse hook (cons v vs) =
      bind (build parse hook v) λ w. bind (build_items parse hook vs) (λ ws. some (Items.cons w ws))

  pub build_pairs : ParseInt → PairHook → RawPairs → Fields → Option Fields
  build_pairs parse hook end seen = some seen
  build_pairs parse hook (pair k v ps) seen =
      bind (build parse hook v) λ w. bind (hook seen k w) (λ seen'. build_pairs parse hook ps seen')

-- `json.loads(text, parse_int=…, object_pairs_hook=…)`; `none` is a ValueError or a RecursionError.
unfoldable pub loads : ParseInt → PairHook → Scan → Option Json
loads parse hook (tree raw) = build parse hook raw
loads parse hook value_error = none
loads parse hook recursion_error = none
