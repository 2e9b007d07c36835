-- ===== src/Json.antt =====
-- JSON values as Python's `json` module decodes them.
pub mod Loads
use flight_test_lab.Prelude.{
  zero, String, Bool, true, false, not, Option, none, some, List, [], ◌∷◌, str_eq, if◌then◌else◌,
}
use flight_test_lab.Prelude.Int.{ℤ, pos}

-- A float is a dyadic number `m * 2 ^ e`, or one of the three special values that `json.loads` reads.
pub data Float : Type 0 where
  dyadic : ℤ → ℤ → Float
  infinity neg_infinity nan : Float

mutual
  pub data Json : Type 0 where
    null : Json
    bool : Bool → Json
    int : ℤ → Json
    float : Float → Json
    str : String → Json
    arr : Items → Json
    obj : Fields → Json

  pub data Items : Type 0 where
    nil : Items
    cons : Json → Items → Items

  -- The entries of a dict, in insertion order.
  pub data Fields : Type 0 where
    end : Fields
    field : String → Json → Fields → Fields

-- `data.get(key)`; `none` where the key is missing
unfoldable pub member : String → Fields → Option Json
member k end = none
member k (field j v fs) = if str_eq j k then some v else member k fs

-- `data.get(key)` as Python answers it: a missing key reads as `None`
abbrev pub or_null : Option Json → Json
or_null none = null
or_null (some v) = v

abbrev pub get : String → Fields → Json
get k fs = or_null (member k fs)

-- `data[key] = value`
unfoldable pub put : String → Json → Fields → Fields
put k v end = field k v end
put k v (field j w fs) = if str_eq j k then field j v fs else field j w (put k v fs)

unfoldable pub items : Items → List Json
items nil = []
items (cons v vs) = v ∷ items vs

unfoldable pub keys : Fields → List String
keys end = []
keys (field k v fs) = k ∷ keys fs

unfoldable pub values : Fields → List Json
values end = []
values (field k v fs) = v ∷ values fs

abbrev pub is_null : Json → Bool
is_null null = true
is_null _ = false

abbrev pub is_str : Json → Bool
is_str (str s) = true
is_str _ = false

abbrev pub is_obj : Json → Bool
is_obj (obj fs) = true
is_obj _ = false

-- `bool(value)`
unfoldable pub truthy : Json → Bool
truthy null = false
truthy (bool b) = b
truthy (int (pos zero)) = false
truthy (int n) = true
truthy (float (dyadic (pos zero) e)) = false
truthy (float x) = true
truthy (str s) = not (str_eq s "")
truthy (arr nil) = false
truthy (arr vs) = true
truthy (obj end) = false
truthy (obj fs) = true
