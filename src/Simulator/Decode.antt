-- ===== src/Simulator/Decode.antt =====
-- `_parse_int` and `decode_request` of simulator/simulator.py, with the raise of the interpreter's
-- digit limit at import. A `limit` is `sys.get_int_max_str_digits()`, where 0 means no limit.
use flight_test_lab.Prelude.{
  ℕ, ◌≡◌, refl, Bool, true, false, ◌||◌, Option, none, some, List, [], ◌∷◌, arith, ltb, leb, length,
  inl, inr, Bool-cases, if◌then◌else◌, ap, fun_ext,
}
use flight_test_lab.Json.{Json, Fields}
use flight_test_lab.Json.Loads.{
  Raw, RawItems, RawPairs, Scan, ParseInt, int_of, lstrip_minus, last_wins, loads, allows, build,
  build_items, build_pairs, PairHook, bind-none,
}
use flight_test_lab.Simulator.Nesting.{
  max_nesting_depth, exceeds_nesting_limit, depth, exceeds_nesting_limit-eq-depth,
}

abbrev pub max_int_digits : ℕ
max_int_digits = 4300

-- `if sys.get_int_max_str_digits() < MAX_INT_DIGITS: sys.set_int_max_str_digits(MAX_INT_DIGITS)`
unfoldable pub raised_limit : ℕ → ℕ
raised_limit limit = if ltb limit max_int_digits then max_int_digits else limit

unfoldable pub parse_int : ℕ → ParseInt
parse_int limit token =
    if ltb max_int_digits (length (lstrip_minus token)) then none else int_of limit token

-- The tail of `decode_request`, from the answer of the nesting check.
abbrev within_nesting : Json → Option Bool → Json × Bool
within_nesting message (some false) = (message, true)
within_nesting message _ = (Json.null, false)

abbrev decoded : Option Json → Json × Bool
decoded none = (Json.null, false)
decoded (some message) = within_nesting message (exceeds_nesting_limit message max_nesting_depth)

-- The message and `ok`; Python's `None` is the JSON null.
unfoldable pub decode_request : ℕ → Scan → Json × Bool
decode_request limit line = decoded (loads (parse_int limit) last_wins line)

-- What the protocol accepts, as a rule on the decoded value.
abbrev pub accepted : Option Json → Json × Bool
accepted none = (Json.null, false)
accepted (some message) =
    if leb (depth message) max_nesting_depth then (message, true) else (Json.null, false)

decoded-eq-accepted : (o : Option Json) → decoded o ≡ accepted o
decoded-eq-accepted none = refl
decoded-eq-accepted (some message) =
    ground (arith, exceeds_nesting_limit-eq-depth message max_nesting_depth)

-- A line is accepted, with its value, exactly when it decodes to a value at most 100 deep; any other
-- line is answered by no message and `ok` false.
pub decode_request-eq-accepted :
    (limit : ℕ) (line : Scan)
    → decode_request limit line ≡ accepted (loads (parse_int limit) last_wins line)
unfolding decode_request
decode_request-eq-accepted limit line = decoded-eq-accepted (loads (parse_int limit) last_wins line)

-- A limit that allows 4300 digits changes nothing for a token that passes the protocol's bound.
int_of-above_bound :
    (limit : ℕ) (token : List ℕ)
    → allows limit max_int_digits ≡ true
    → ltb max_int_digits (length (lstrip_minus token)) ≡ false
    → int_of limit token ≡ int_of 0 token
unfolding int_of lstrip_minus
int_of-above_bound limit [] a h = ground arith
int_of-above_bound limit (c ∷ []) a h = ground arith
int_of-above_bound limit (c ∷ c' ∷ cs) a h = ground arith

raised_limit-allows : (limit : ℕ) → allows (raised_limit limit) max_int_digits ≡ true
unfolding raised_limit
raised_limit-allows limit = ground arith

parse_int-raised :
    (limit : ℕ) (token : List ℕ) → parse_int (raised_limit limit) token ≡ parse_int 0 token
unfolding parse_int
parse_int-raised limit token =
    ground (arith, int_of-above_bound (raised_limit limit) token, raised_limit-allows limit)

-- What a request means does not depend on the interpreter's digit limit: after the raise at import,
-- every environment decodes every line as one without a limit does.
pub decode_request_independent :
    (limit : ℕ) (line : Scan) → decode_request (raised_limit limit) line ≡ decode_request 0 line
unfolding decode_request
decode_request_independent limit line =
    ap (λ (p : ParseInt). decoded (loads p last_wins line)) (fun_ext (parse_int-raised limit))

-- Whether an integer of more digits than the protocol's bound stands anywhere in a scanned text.
unfoldable mutual
  pub has_long_int : Raw → Bool
  has_long_int Raw.null = false
  has_long_int (Raw.bool b) = false
  has_long_int (Raw.number token) = ltb max_int_digits (length (lstrip_minus token))
  has_long_int (Raw.float x) = false
  has_long_int (Raw.str s) = false
  has_long_int (Raw.arr vs) = has_long_items vs
  has_long_int (Raw.obj ps) = has_long_pairs ps

  pub has_long_items : RawItems → Bool
  has_long_items RawItems.nil = false
  has_long_items (RawItems.cons v vs) = has_long_int v || has_long_items vs

  pub has_long_pairs : RawPairs → Bool
  has_long_pairs RawPairs.end = false
  has_long_pairs (RawPairs.pair k v ps) = has_long_int v || has_long_pairs ps

-- A hook that fails anywhere fails the whole text.
mutual
  unfolding has_long_int build parse_int

  build-long :
      (limit : ℕ) (hook : PairHook) (v : Raw)
      → has_long_int v ≡ true
      → build (parse_int limit) hook v ≡ none
  build-long limit hook Raw.null h = cc
  build-long limit hook (Raw.bool b) h = cc
  build-long limit hook (Raw.number token) h = ground arith
  build-long limit hook (Raw.float x) h = cc
  build-long limit hook (Raw.str s) h = cc
  build-long limit hook (Raw.arr vs) h = rw (build_items-long limit hook vs h)
  build-long limit hook (Raw.obj ps) h = rw (build_pairs-long limit hook ps Fields.end h)

  build_items-long :
      (limit : ℕ) (hook : PairHook) (vs : RawItems)
      → has_long_items vs ≡ true
      → build_items (parse_int limit) hook vs ≡ none
  build_items-long limit hook RawItems.nil h = cc
  build_items-long limit hook (RawItems.cons v vs) h = elim (Bool-cases (has_long_int v)) [
    | inl here ↦ rw (build-long limit hook v here)
    | inr there ↦ ground (arith, build_items-long limit hook vs)
  ]

  build_pairs-long :
      (limit : ℕ) (hook : PairHook) (ps : RawPairs) (seen : Fields)
      → has_long_pairs ps ≡ true
      → build_pairs (parse_int limit) hook ps seen ≡ none
  build_pairs-long limit hook RawPairs.end seen h = cc
  build_pairs-long limit hook (RawPairs.pair k v ps) seen h = elim (Bool-cases (has_long_int v)) [
    | inl here ↦ rw (build-long limit hook v here)
    | inr there ↦ bind-none (build (parse_int limit) hook v) _ λ w.
        bind-none (hook seen k w) _ λ seen'. build_pairs-long limit hook ps seen' (ground arith)
  ]

-- An integer of more than 4300 digits anywhere in a request makes the answer a refusal, whatever the
-- interpreter's digit limit is and wherever the integer stands.
pub decode_request-long :
    (limit : ℕ) (line : Raw)
    → has_long_int line ≡ true
    → decode_request limit (Scan.tree line) ≡ (Json.null, false)
unfolding decode_request loads
decode_request-long limit line h = rw (build-long limit last_wins line h)
