-- ===== src/Simulator/Faults/Manifest.antt =====
-- A manifest given to `--fault-config` is read as it is written, and read alone.
use flight_test_lab.Prelude.{
  ℕ, String, ◌≡◌, refl, Bool, true, false, Option, none, some, List, [], ◌∷◌, arith, contains,
  Option-cases, ◌∙◌, is_empty, Bool-cases, All, inl, inr, eq_iff, str_eq,
}
use mathlib.Core.Bool.{false≢true}
use flight_test_lab.Prelude.Int.{ℤ, pos}
use flight_test_lab.Result.{ok}
use flight_test_lab.Json
use flight_test_lab.Json.{
  Json, Fields, null, bool, int, float, str, arr, obj, end, field, member, get,
}
use flight_test_lab.Json.Loads.{
  Scan, Raw, RawPairs, pair, tree, ParseInt, loads, int_of, build, build_pairs, bind-some,
}
use flight_test_lab.Simulator.Faults.{
  FaultConfig, holds, config_of, from_loaded, load_fault_config, reject_duplicate_keys, unknown,
  fault_config_keys, int_field, bool_field, or_zero,
}
use flight_test_lab.Simulator.Faults.Reads.{config_of-Reads}

abbrev pub written_bool : Json → Bool
written_bool (bool b) = b
written_bool _ = false

abbrev pub written_delay : Json → ℤ
written_delay (int n) = n
written_delay _ = pos 0

abbrev pub written_count : Json → Option ℤ
written_count (int n) = some n
written_count _ = none

-- The configuration has the five values that the object holds, and the object holds nothing else.
pub record IsAsWritten (fs : Fields) (c : FaultConfig) : Type 0 where
  pub response : c.response_delay_ms ≡ written_delay (get "response_delay_ms" fs)
  pub drop : c.drop_connection ≡ written_bool (get "drop_connection" fs)
  pub malformed : c.malformed_response ≡ written_bool (get "malformed_response" fs)
  pub startup : c.startup_delay_ms ≡ written_delay (get "startup_delay_ms" fs)
  pub exit : c.exit_after_requests ≡ written_count (get "exit_after_requests" fs)
  pub known : All (λ k. contains k fault_config_keys ≡ true) (Json.keys fs)

int_field-delay :
    (fs : Fields) (key : String) {o : Option ℤ}
    → int_field fs key false ≡ ok o
    → or_zero o ≡ written_delay (get key fs)
unfolding int_field
int_field-delay fs key h = ground arith

int_field-count :
    (fs : Fields) (key : String) {o : Option ℤ}
    → int_field fs key true ≡ ok o
    → o ≡ written_count (get key fs)
unfolding int_field
int_field-count fs key h = ground arith

bool_field-written :
    (fs : Fields) (key : String) {b : Bool}
    → bool_field fs key ≡ ok b
    → b ≡ written_bool (get key fs)
unfolding bool_field
bool_field-written fs key h = ground arith

unknown-All :
    (ks : List String)
    → is_empty (unknown ks) ≡ true
    → All (λ k. contains k fault_config_keys ≡ true) ks
unfolding unknown
unknown-All [] h = tt
unknown-All (k ∷ ks) h = elim (Bool-cases (contains k fault_config_keys)) [
  | inl known ↦ (known, unknown-All ks (rw known at h))
  | inr other ↦ absurd (false≢true (rw other at h))
]

config_of-IsAsWritten : (fs : Fields) {c : FaultConfig} → config_of fs ≡ ok c → IsAsWritten fs c
config_of-IsAsWritten fs h =
    let r = config_of-Reads fs h in
    record {
      response = r.response_is ∙ int_field-delay fs "response_delay_ms" r.response_read;
      drop = bool_field-written fs "drop_connection" r.drop_read;
      malformed = bool_field-written fs "malformed_response" r.malformed_read;
      startup = r.startup_is ∙ int_field-delay fs "startup_delay_ms" r.startup_read;
      exit = int_field-count fs "exit_after_requests" r.exit_read;
      known = unknown-All (Json.keys fs) r.no_unknown;
    }

-- A manifest that decodes to an object and is accepted becomes the configuration whose five fields
-- are the values written in the object, 0, false or none where one is missing; every key of it is one
-- of the five.
pub load_fault_config-IsAsWritten :
    (limit : ℕ) (text : Scan) (fs : Fields) {c : FaultConfig}
    → loads (int_of limit) reject_duplicate_keys text ≡ some (obj fs)
    → load_fault_config limit (holds text) ≡ ok c
    → IsAsWritten fs c
unfolding load_fault_config
load_fault_config-IsAsWritten limit text fs e h =
    config_of-IsAsWritten fs (rw (e, from_loaded) at h)

-- The keys of an object as they stand in the text.
abbrev pub raw_keys : RawPairs → List String
raw_keys RawPairs.end = []
raw_keys (pair k v ps) = k ∷ raw_keys ps

-- Every key stands once.
abbrev pub IsDistinct : List String → Type 0
IsDistinct [] = Unit
IsDistinct (k ∷ ks) = (contains k ks ≡ false) × IsDistinct ks

contains-put :
    (j k : String) (w : Json) (fs : Fields)
    → contains j (Json.keys (Json.put k w fs)) ≡ false
    → (contains j (Json.keys fs) ≡ false) × (str_eq k j ≡ false)
unfolding Json.put Json.keys
contains-put j k w end h = ground arith
contains-put j k w (field i v fs) h =
    ground (arith, contains-put j k w fs, eq_iff i k, eq_iff i j, eq_iff k j)

-- None of the names is the key, or among the keys seen.
apart :
    (k : String) (w : Json) (seen : Fields) (js : List String)
    → All (λ j. contains j (Json.keys (Json.put k w seen)) ≡ false) js
    → (contains k js ≡ false) × All (λ j. contains j (Json.keys seen) ≡ false) js
apart k w seen [] h = (refl, tt)
apart k w seen (j ∷ js) h =
    let (old, other) = contains-put j k w seen h.0 in
    let (rest, olds) = apart k w seen js h.1 in
    (ground (arith, eq_iff k j, eq_iff j k), (old, olds))

IsDistinct-pairs :
    (p : ParseInt) (ps : RawPairs) (seen : Fields) {fs : Fields}
    → build_pairs p reject_duplicate_keys ps seen ≡ some fs
    → IsDistinct (raw_keys ps) × All (λ k. contains k (Json.keys seen) ≡ false) (raw_keys ps)
unfolding build reject_duplicate_keys
IsDistinct-pairs p RawPairs.end seen h = (tt, tt)
IsDistinct-pairs p (pair k v ps) seen h =
    let (w, built, h₁) = bind-some (build p reject_duplicate_keys v) _ h in
    let (seen', hooked, h₂) = bind-some (reject_duplicate_keys seen k w) _ h₁ in
    let (distinct, news) = IsDistinct-pairs p ps seen' h₂ in
    let fresh : (contains k (Json.keys seen) ≡ false) × (seen' ≡ Json.put k w seen) =
      ground arith in
    let (once, olds) = apart k w seen (raw_keys ps) (rw fresh.1 at news) in
    ((once, distinct), (fresh.0, olds))

-- A manifest that is accepted and is an object repeats none of that object's keys.
pub load_fault_config-IsDistinct :
    (limit : ℕ) (ps : RawPairs) {c : FaultConfig}
    → load_fault_config limit (holds (tree (Raw.obj ps))) ≡ ok c
    → IsDistinct (raw_keys ps)
unfolding load_fault_config loads build
load_fault_config-IsDistinct limit ps h =
    elim (Option-cases (build_pairs (int_of limit) reject_duplicate_keys ps end)) [
      | inl refused ↦ cc (rw refused at h)
      | inr (fs, built) ↦ (IsDistinct-pairs (int_of limit) ps end built).0
    ]
