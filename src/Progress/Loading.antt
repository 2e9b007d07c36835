-- ===== src/Progress/Loading.antt =====
-- The loader of learning/server/progress.py: `_record_is_valid` and `_load`, over the JSON value that
-- the file holds.
pub mod Typed
pub mod Sound
use flight_test_lab.Prelude.{
  ℕ, String, Bool, true, false, not, ◌&&◌, Option, none, some, List, [], ◌∷◌, leb, str_eq, all,
  if◌then◌else◌,
}
use flight_test_lab.Prelude.Int.{ℤ, pos, negsuc}
use flight_test_lab.Json
use flight_test_lab.Json.{
  Json, Items, Fields, null, bool, int, str, arr, obj, end, field, get, member,
}
use flight_test_lab.Curriculum.Schema.{equals_count}

abbrev pub max_counter : ℕ
max_counter = 1_000_000

abbrev pub valid_count : Json → Bool
valid_count null = true
valid_count (int (pos n)) = leb n max_counter
valid_count _ = false

unfoldable pub all_strings : Items → Bool
all_strings Items.nil = true
all_strings (Items.cons (str s) vs) = all_strings vs
all_strings (Items.cons _ vs) = false

abbrev pub valid_strings : Json → Bool
valid_strings null = true
valid_strings (arr vs) = all_strings vs
valid_strings _ = false

abbrev pub valid_text : Json → Bool
valid_text null = true
valid_text (str s) = true
valid_text _ = false

abbrev pub valid_flag : Json → Bool
valid_flag null = true
valid_flag (bool b) = true
valid_flag _ = false

abbrev pub valid_outcome : Json → Bool
valid_outcome (obj o) = valid_flag (get "passed" o) && valid_text (get "at" o)
valid_outcome _ = false

unfoldable pub valid_outcomes : Fields → Bool
valid_outcomes end = true
valid_outcomes (field k o fs) = valid_outcome o && valid_outcomes fs

abbrev pub valid_validations : Json → Bool
valid_validations null = true
valid_validations (obj fs) = valid_outcomes fs
valid_validations _ = false

unfoldable pub record_is_valid : String → Fields → Bool
record_is_valid section r =
    if str_eq section "lessons"
    then all (λ k. valid_count (get k r))
        ("attempts" ∷ "hints_used" ∷ "quiz_attempts" ∷ "interview_baseline" ∷ [])
      && all (λ k. valid_strings (get k r)) ("steps_done" ∷ "quiz_correct" ∷ "explain_done" ∷ [])
      && valid_text (get "status" r)
      && valid_validations (get "validations" r)
    else if str_eq section "concepts"
    then all (λ k. valid_count (get k r)) ("correct" ∷ "incorrect" ∷ [])
    else if str_eq section "interview"
    then all (λ k. valid_count (get k r)) ("correct" ∷ "incorrect" ∷ "streak" ∷ [])
    else true

-- What is at the path of the state: nothing, a file that gives no JSON value, or a value.
pub data StateFile : Type 0 where
  missing damaged : StateFile
  holds : Json → StateFile

-- The two checks of a section: that its values are objects, and that each is valid.
unfoldable pub all_objects : Fields → Bool
all_objects end = true
all_objects (field k (obj r) fs) = all_objects fs
all_objects (field k _ fs) = false

abbrev pub valid_value : String → Json → Bool
valid_value section (obj r) = record_is_valid section r
valid_value section _ = false

unfoldable pub all_valid : String → Fields → Bool
all_valid section end = true
all_valid section (field k v fs) = valid_value section v && all_valid section fs

abbrev pub valid_section : String → Json → Bool
valid_section section (obj fs) = all_objects fs && all_valid section fs
valid_section section _ = false

-- `data.setdefault(key, default)`
unfoldable pub set_default_member : String → Json → Fields → Fields
set_default_member key default data_ = elim (member key data_) [
  | none ↦ Json.put key default data_
  | some v ↦ data_
]

-- `none` is the back-up and reset.
unfoldable pub load_sections : Fields → List String → Option Fields
load_sections data_ [] = some data_
load_sections data_ (key ∷ keys) =
    let filled = set_default_member key (obj end) data_ in
    let rest = load_sections filled keys in
    if valid_section key (get key filled) then rest else none

abbrev pub empty_fields : Fields
empty_fields = field "version" (int (pos 1)) (
    field "last_lesson_id" null
      (field "lessons" (obj end) (field "concepts" (obj end) (field "interview" (obj end) end))))

-- The state, and whether the file was backed up.
abbrev pub reset : Fields × Bool
reset = (empty_fields, true)

abbrev pub with_last : Option Fields → Fields × Bool
with_last none = reset
with_last (some data_) = if valid_text (get "last_lesson_id" data_) then (data_, false) else reset

unfoldable pub load : StateFile → Fields × Bool
load missing = (empty_fields, false)
load damaged = reset
load (holds (obj data_)) =
    if equals_count 1 (get "version" data_)
    then with_last (
        load_sections (set_default_member "last_lesson_id" null data_)
          ("lessons" ∷ "concepts" ∷ "interview" ∷ []))
    else reset
load (holds _) = reset
