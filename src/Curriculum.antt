-- ===== src/Curriculum.antt =====
-- learning/server/curriculum.py: lessons, days, questions and the curriculum that holds them.
pub mod Values
pub mod Blocks
pub mod Schema
pub mod Files
pub mod Interview
pub mod Load
pub mod Gathering
pub mod Places
pub mod Order
use flight_test_lab.Prelude.{
  String, Bool, false, ◌&&◌, ◌||◌, Option, none, some, List, [], ◌∷◌, map, str_eq, if◌then◌else◌,
}
use flight_test_lab.Dict.{Dict}
use flight_test_lab.Json.{Json, Fields, str, get, truthy}
use flight_test_lab.Prelude.Int.{ℤ}

pub record Lesson : Type 0 where
  pub id : String
  pub day : ℤ
  pub title : String
  pub objective : String
  pub estimated_minutes : ℤ
  pub status : String
  pub unavailable_reason : String
  pub concepts : List String
  pub prerequisites : List String
  pub source_files : List String
  pub flow : Option String
  pub blocks : List Fields
  pub hints : List Fields
  pub requirements : List String
  pub requires : List String

pub record Day : Type 0 where
  pub day : ℤ
  pub title : String
  pub summary : String
  pub lesson_ids : List String

pub record InterviewQuestion : Type 0 where
  pub id : String
  pub question : String
  pub concepts : List String
  pub keywords : List String
  pub sample_answer : String

pub record Curriculum : Type 0 where
  pub concepts : List String
  pub days : List Day
  pub lessons : Dict Lesson
  pub ordered_lesson_ids : List String
  pub interview : List InterviewQuestion
  pub flows : Dict Fields

-- A value that a validated block holds as a text; the loader admits no other type for an id.
abbrev pub text : Json → String
text (str s) = s
text _ = ""

-- `value == "…"`
abbrev pub is_text : String → Json → Bool
is_text s (str t) = str_eq t s
is_text s _ = false

abbrev pub block_id : Fields → String
block_id b = text (get "id" b)

abbrev pub has_type : String → Fields → Bool
has_type kind b = is_text kind (get "type" b)

-- `[block for block in blocks if p(block)]`
unfoldable pub select : (Fields → Bool) → List Fields → List Fields
select p [] = []
select p (b ∷ bs) = if p b then b ∷ select p bs else select p bs

abbrev is_mandatory : Fields → Bool
is_mandatory b = has_type "verify" b && truthy (get "mandatory" b)

unfoldable pub mandatory_validators : Lesson → List Fields
unfolding select
mandatory_validators lesson = select is_mandatory lesson.blocks

unfoldable pub required_quiz_ids : Lesson → List String
unfolding select
required_quiz_ids lesson = map block_id (select (has_type "quiz") lesson.blocks)

unfoldable pub required_explain_ids : Lesson → List String
unfolding select
required_explain_ids lesson = map block_id (select (has_type "explain") lesson.blocks)

-- The first block that passes the test.
unfoldable pub find_block : (Fields → Bool) → List Fields → Option Fields
find_block p [] = none
find_block p (b ∷ bs) = if p b then some b else find_block p bs

unfoldable pub quiz_block : Lesson → String → Option Fields
unfolding find_block
quiz_block lesson id =
    find_block (λ b. (has_type "quiz" b || has_type "predict" b) && is_text id (get "id" b))
      lesson.blocks

unfoldable pub explain_block : Lesson → String → Option Fields
unfolding find_block
explain_block lesson id =
    find_block (λ b. has_type "explain" b && is_text id (get "id" b)) lesson.blocks
