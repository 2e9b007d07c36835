-- ===== src/Curriculum/Values.antt =====
-- The typed reads of learning/server/curriculum.py: `_require_str`, `_require_str_list` and the tests
-- with `isinstance`, with the errors that the loader raises.
use flight_test_lab.Prelude.{
  ℕ, String, Bool, true, false, ◌&&◌, ◌||◌, Option, none, some, List, [], ◌∷◌, ◌==◌, leb, contains,
  if◌then◌else◌,
}
use Prim.Native.Char.{code}
use flight_test_lab.Prelude.Int.{ℤ, pos}
use flight_test_lab.Result.{Result, ok, err}
use flight_test_lab.Json.{Json, Items, Fields, bool, int, str, arr, obj, member, get}

-- The reasons of the CurriculumErrors, with what their messages name, and the other exceptions.
pub data CurriculumError : Type 0 where
  invalid_json not_an_object : CurriculumError
  missing_string not_strings : String → CurriculumError
  unknown_block_type missing_block_id : CurriculumError
  duplicate_block unknown_validator few_options bad_answer_index no_keyword :
      String → CurriculumError
  missing_key : String → String → CurriculumError
  bad_minutes bad_status no_reason no_blocks bad_blocks bad_hints : CurriculumError
  bad_hint : ℕ → CurriculumError
  unknown_requirement : String → CurriculumError
  bad_day bad_module : CurriculumError
  duplicate_lesson : String → CurriculumError
  unknown_concept unknown_prerequisite own_prerequisite later_prerequisite :
      String → String → CurriculumError
  no_concepts no_days no_lessons no_questions bad_interview bad_question bad_flow : CurriculumError
  duplicate_question : String → CurriculumError
  unknown_flow : String → String → CurriculumError
  -- Not a CurriculumError: an unhashable value, a missing key, a file that cannot be read.
  type_error key_error os_error : CurriculumError

abbrev pub Checked : Type 0 → Type 0
Checked = Result CurriculumError

-- What the checks are given: the validators' names, what the machine can do, the wording of
-- `requirement_reason`, and `str(value)` of any JSON value.
pub record Site : Type 0 where
  pub known_validators : List String
  pub can_build_cpp : Bool
  pub can_debug : Bool
  pub reason : String → String
  pub py_str : Json → String

-- The code points that `str.strip` strips.
abbrev pub is_space : ℕ → Bool
is_space c =
    (leb 9 c && leb c 13)
    || (leb 28 c && leb c 32)
    || c == 133
    || c == 160
    || c == 5760
    || (leb 8192 c && leb c 8202)
    || c == 8232
    || c == 8233
    || c == 8239
    || c == 8287
    || c == 12288

-- `not value.strip()`
unfoldable pub is_blank : String → Bool
is_blank String.[] = true
is_blank (String.◌∷◌ c s) = is_space (code c) && is_blank s

unfoldable pub require_str : Fields → String → Checked String
require_str data_ key = elim (get key data_) [
  | str s ↦ if is_blank s then err (missing_string key) else ok s
  | _ ↦ err (missing_string key)
]

unfoldable pub strings : Items → Option (List String)
strings Items.nil = some []
strings (Items.cons (str s) vs) = elim (strings vs) [ none ↦ none | some ss ↦ some (s ∷ ss) ]
strings (Items.cons _ vs) = none

-- `data.get(key, [])`
abbrev pub get_list : String → Fields → Json
get_list key data_ = elim (member key data_) [ none ↦ arr Items.nil | some v ↦ v ]

abbrev some_strings : String → Option (List String) → Checked (List String)
some_strings key none = err (not_strings key)
some_strings key (some ss) = ok ss

abbrev pub listed_strings : String → Json → Checked (List String)
listed_strings key (arr vs) = some_strings key (strings vs)
listed_strings key _ = err (not_strings key)

unfoldable pub require_str_list : Fields → String → Checked (List String)
unfolding strings
require_str_list data_ key = listed_strings key (get_list key data_)

-- A list of objects.
unfoldable pub objects : Items → Option (List Fields)
objects Items.nil = some []
objects (Items.cons (obj fs) vs) = elim (objects vs) [ none ↦ none | some os ↦ some (fs ∷ os) ]
objects (Items.cons _ vs) = none

abbrev pub require_objects : CurriculumError → Json → Checked (List Fields)
require_objects e (arr vs) = elim (objects vs) [ none ↦ err e | some os ↦ ok os ]
require_objects e _ = err e

-- A value for which `isinstance(value, int)` holds, as an integer; a bool is one.
abbrev pub as_int : Json → Option ℤ
as_int (int n) = some n
as_int (bool true) = some (pos 1)
as_int (bool false) = some (pos 0)
as_int _ = none

-- `value in names`, for a set of names: a list or an object has no hash.
abbrev pub among : List String → Json → Checked Bool
among names (str s) = ok (contains s names)
among names (arr vs) = err type_error
among names (obj fs) = err type_error
among names _ = ok false
