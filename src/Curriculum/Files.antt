-- ===== src/Curriculum/Files.antt =====
-- The files that `load_curriculum` of learning/server/curriculum.py reads, and the checks of their shape.
use flight_test_lab.Prelude.{String, Bool, true, false, not, List, [], ◌∷◌, contains}
use flight_test_lab.Result.{ok, err, ◌>>◌, raise_if}
use flight_test_lab.Json.{Json, Items, Fields, obj, arr}
use flight_test_lab.Curriculum.Values.{CurriculumError, invalid_json, os_error, Checked}

-- What is at a path: no file that can be read, a text that `json.loads` refuses, or a value.
pub data File : Type 0 where
  unreadable invalid : File
  holds : Json → File

-- The files under the root; the flows stand by their stems, in the order of their paths.
pub record Files : Type 0 where
  pub program : File
  pub module_ : String → File
  pub interview : File
  pub flows : List (String × File)

abbrev pub load_json : File → Checked Json
load_json unreadable = err os_error
load_json invalid = err invalid_json
load_json (holds v) = ok v

abbrev pub require_object : CurriculumError → Json → Checked Fields
require_object e (obj fs) = ok fs
require_object e _ = err e

-- A list under a key.
abbrev pub require_list : CurriculumError → Json → Checked Items
require_list e (arr vs) = ok vs
require_list e _ = err e

unfoldable pub check_concepts :
    (String → CurriculumError) → List String → List String → Checked (Unit {0})
check_concepts e known [] = ok tt
check_concepts e known (c ∷ cs) =
    raise_if (not (contains c known)) (e c) >> check_concepts e known cs

abbrev pub is_nil : Items → Bool
is_nil Items.nil = true
is_nil (Items.cons v vs) = false
