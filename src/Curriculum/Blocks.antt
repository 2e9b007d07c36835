-- ===== src/Curriculum/Blocks.antt =====
-- `_validate_blocks` of learning/server/curriculum.py.
use flight_test_lab.Prelude.{
  ℕ, suc, String, Bool, true, false, not, ◌&&◌, ◌||◌, Option, none, some, List, [], ◌∷◌, ltb,
  str_eq, contains, is_empty, if◌then◌else◌,
}
use flight_test_lab.Prelude.Int.{ℤ, pos, ltb_ℤ}
use flight_test_lab.Result.{ok, ◌>>=◌, ◌>>◌, raise_if}
use flight_test_lab.Json.{Json, Items, Fields, arr, member, get}
use flight_test_lab.Curriculum.{text, is_text}
use flight_test_lab.Curriculum.Values.{
  unknown_block_type, missing_block_id, duplicate_block, unknown_validator, few_options,
  bad_answer_index, no_keyword, missing_key, Checked, Site, require_str_list, as_int, among,
}

abbrev pub block_types : List String
block_types = "learn" ∷ "predict" ∷ "do" ∷ "verify" ∷ "quiz" ∷ "explain" ∷ []

-- `BLOCK_REQUIRED_KEYS[str(block_type)]`, of a known type
unfoldable pub required_keys : String → List String
required_keys kind =
    if str_eq kind "learn"
    then "text" ∷ []
    else if str_eq kind "predict"
    then "question" ∷ "options" ∷ "answer_index" ∷ "reveal" ∷ []
    else if str_eq kind "do"
    then "instructions" ∷ []
    else if str_eq kind "verify"
    then "validator" ∷ []
    else if str_eq kind "quiz"
    then "question" ∷ "options" ∷ "answer_index" ∷ []
    else "question" ∷ "keywords" ∷ "sample_answer" ∷ []

abbrev pub has_member : String → Fields → Bool
has_member key data_ = elim (member key data_) [ none ↦ false | some v ↦ true ]

unfoldable pub require_keys : Fields → String → List String → Checked (Unit {0})
require_keys block id [] = ok tt
require_keys block id (k ∷ ks) =
    raise_if (not (has_member k block)) (missing_key id k) >> require_keys block id ks

unfoldable pub count_items : Items → ℕ
count_items Items.nil = 0
count_items (Items.cons v vs) = suc (count_items vs)

-- How many options a question has; a value that is no list has none.
abbrev pub option_count : Json → ℕ
option_count (arr vs) = count_items vs
option_count _ = 0

-- `isinstance(index, int) and 0 <= index < n`
abbrev pub is_index : ℕ → Option ℤ → Bool
is_index n none = false
is_index n (some i) = not (ltb_ℤ i (pos 0)) && ltb_ℤ i (pos n)

unfoldable pub check_verify : Site → Fields → String → Checked (Unit {0})
check_verify site block id = do
  known ← among site.known_validators (get "validator" block)
  raise_if (not known) (unknown_validator id)

unfoldable pub check_question : Fields → String → Checked (Unit {0})
check_question block id = do
  raise_if (ltb (option_count (get "options" block)) 2) (few_options id)
  raise_if (not (is_index (option_count (get "options" block)) (as_int (get "answer_index" block))))
      (bad_answer_index id)

unfoldable pub check_explain : Fields → String → Checked (Unit {0})
check_explain block id = do
  keywords ← require_str_list block "keywords"
  raise_if (is_empty keywords) (no_keyword id)

-- `if test: check`
abbrev pub where_ : Bool → Checked (Unit {0}) → Checked (Unit {0})
where_ true check = check
where_ false check = ok tt

-- One round of the loop of `_validate_blocks`: the block's id.
unfoldable pub check_block : Site → List String → Fields → Checked String
check_block site seen block = do
  known ← among block_types (get "type" block)
  raise_if (not known) unknown_block_type
  raise_if (str_eq (text (get "id" block)) "") missing_block_id
  raise_if (contains (text (get "id" block)) seen) (duplicate_block (text (get "id" block)))
  require_keys block (text (get "id" block)) (required_keys (text (get "type" block)))
  where_ (is_text "verify" (get "type" block)) (check_verify site block (text (get "id" block)))
  where_ (is_text "quiz" (get "type" block) || is_text "predict" (get "type" block))
      (check_question block (text (get "id" block)))
  where_ (is_text "explain" (get "type" block)) (check_explain block (text (get "id" block)))
  ok (text (get "id" block))

unfoldable pub validate_blocks : Site → List String → List Fields → Checked (Unit {0})
validate_blocks site seen [] = ok tt
validate_blocks site seen (b ∷ bs) = do
  id ← check_block site seen b
  validate_blocks site (id ∷ seen) bs
