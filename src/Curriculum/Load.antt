-- ===== src/Curriculum/Load.antt =====
-- `load_curriculum` of learning/server/curriculum.py: the days and their lessons, the checks of the
-- prerequisites, and the flows.
use flight_test_lab.Prelude.{
  ℕ, ◌+◌, String, Bool, true, false, not, Option, none, some, List, [], ◌∷◌, ◌++◌, ltb, str_eq,
  is_empty, if◌then◌else◌,
}
use flight_test_lab.Prelude.Int.{ℤ, pos, ltb_ℤ}
use flight_test_lab.Dict
use flight_test_lab.Dict.{Dict, has}
use flight_test_lab.Result.{ok, err, ◌>>=◌, ◌>>◌, raise_if}
use flight_test_lab.Json.{Json, Items, Fields, str, get}
use flight_test_lab.Curriculum.{Lesson, Day, InterviewQuestion, Curriculum}
use flight_test_lab.Curriculum.Values.{
  not_an_object, bad_day, bad_module, duplicate_lesson, unknown_concept, unknown_prerequisite,
  own_prerequisite, later_prerequisite, no_concepts, no_days, no_lessons, bad_flow, unknown_flow,
  key_error, Checked, Site, require_str, require_str_list, as_int,
}
use flight_test_lab.Curriculum.Schema.{parse_lesson, str_or_empty}
use flight_test_lab.Curriculum.Files.{
  File, Files, load_json, require_object, require_list, check_concepts, is_nil,
}
use flight_test_lab.Curriculum.Interview.{load_interview}

-- The lessons found so far, their ids in order, and the ids of the day that is read.
pub record Gathered : Type 0 where
  pub lessons : Dict Lesson
  pub ordered : List String
  pub lesson_ids : List String

abbrev pub gather : Lesson → Gathered → Gathered
gather l g = record {
  lessons = Dict.put l.id l g.lessons;
  ordered = g.ordered ++ l.id ∷ [];
  lesson_ids = g.lesson_ids ++ l.id ∷ [];
}

-- One round of the loop over the lessons of a module.
unfoldable pub load_lesson : Site → List String → ℤ → Gathered → Json → Checked Gathered
load_lesson site concepts day g raw = do
  data_ ← require_object bad_module raw
  lesson ← parse_lesson site day data_
  raise_if (has lesson.id g.lessons) (duplicate_lesson lesson.id)
  check_concepts (unknown_concept lesson.id) concepts lesson.concepts
  ok (gather lesson g)

unfoldable pub load_lessons : Site → List String → ℤ → Gathered → Items → Checked Gathered
load_lessons site concepts day g Items.nil = ok g
load_lessons site concepts day g (Items.cons raw raws) = do
  g' ← load_lesson site concepts day g raw
  load_lessons site concepts day g' raws

abbrev pub require_day : Option ℤ → Checked ℤ
require_day none = err bad_day
require_day (some n) = if ltb_ℤ n (pos 1) then err bad_day else ok n

abbrev pub require_name : Json → Checked String
require_name (str s) = ok s
require_name _ = err bad_module

abbrev pub day_of : Site → ℤ → String → Fields → Gathered → Day
day_of site day title entry g = record {
  day = day;
  title = title;
  summary = str_or_empty site "summary" entry;
  lesson_ids = g.lesson_ids;
}

-- One round of the loop over the days.
unfoldable pub load_day : Site → Files → List String → Gathered → Json → Checked (Gathered × Day)
load_day site files concepts g raw = do
  entry ← require_object bad_day raw
  day ← require_day (as_int (get "day" entry))
  name ← require_name (get "module" entry)
  title ← require_str entry "title"
  loaded ← load_json (files.module_ name)
  module_ ← require_object bad_module loaded
  lessons ← require_list bad_module (get "lessons" module_)
  g' ← load_lessons site concepts day (record g { lesson_ids = [] }) lessons
  ok (g', day_of site day title entry g')

unfoldable pub load_days :
    Site → Files → List String → Gathered → Items → Checked (Gathered × List Day)
load_days site files concepts g Items.nil = ok (g, [])
load_days site files concepts g (Items.cons raw raws) = do
  loaded ← load_day site files concepts g raw
  rest ← load_days site files concepts loaded.0 raws
  ok (rest.0, loaded.1 ∷ rest.1)

-- `{lesson_id: index for index, lesson_id in enumerate(ordered)}.get(id)`: the last place counts.
abbrev pub next_place : Bool → Option ℕ → Option ℕ
next_place here (some n) = some (n + 1)
next_place true none = some 0
next_place false none = none

unfoldable pub position : String → List String → Option ℕ
position id [] = none
position id (i ∷ ids) = next_place (str_eq i id) (position id ids)

abbrev pub require_place : Option ℕ → Checked ℕ
require_place none = err key_error
require_place (some n) = ok n

-- One round of the loop over the prerequisites of a lesson.
unfoldable pub check_prerequisite : Dict Lesson → List String → String → String → Checked (Unit {0})
check_prerequisite lessons ordered id p = do
  raise_if (not (has p lessons)) (unknown_prerequisite id p)
  raise_if (str_eq p id) (own_prerequisite id p)
  before ← require_place (position p ordered)
  place ← require_place (position id ordered)
  raise_if (ltb place before) (later_prerequisite id p)

unfoldable pub check_prerequisites :
    Dict Lesson → List String → String → List String → Checked (Unit {0})
check_prerequisites lessons ordered id [] = ok tt
check_prerequisites lessons ordered id (p ∷ ps) =
    check_prerequisite lessons ordered id p >> check_prerequisites lessons ordered id ps

unfoldable pub check_lessons : Dict Lesson → List String → List Lesson → Checked (Unit {0})
check_lessons lessons ordered [] = ok tt
check_lessons lessons ordered (l ∷ ls) =
    check_prerequisites lessons ordered l.id l.prerequisites >> check_lessons lessons ordered ls

unfoldable pub load_flows : Dict Fields → List (String × File) → Checked (Dict Fields)
load_flows flows [] = ok flows
load_flows flows ((stem, file) ∷ rest) = do
  loaded ← load_json file
  flow ← require_object bad_flow loaded
  stages ← require_list bad_flow (get "stages" flow)
  load_flows (Dict.put stem flow flows) rest

abbrev flow_known : Dict Fields → Option String → Bool
flow_known flows none = true
flow_known flows (some f) = has f flows

abbrev flow_name : Option String → String
flow_name none = ""
flow_name (some f) = f

unfoldable pub check_flows : Dict Fields → List Lesson → Checked (Unit {0})
check_flows flows [] = ok tt
check_flows flows (l ∷ ls) =
    raise_if (not (flow_known flows l.flow)) (unknown_flow l.id (flow_name l.flow))
    >> check_flows flows ls

abbrev pub nothing_gathered : Gathered
nothing_gathered = record { lessons = []; ordered = []; lesson_ids = [] }

-- What follows the concepts, up to the check of the prerequisites.
unfoldable pub load_program : Site → Files → List String → Fields → Checked (Gathered × List Day)
load_program site files concepts program = do
  entries ← require_list no_days (get "days" program)
  raise_if (is_nil entries) no_days
  loaded ← load_days site files concepts nothing_gathered entries
  raise_if (is_empty loaded.0.ordered) no_lessons
  check_lessons loaded.0.lessons loaded.0.ordered (Dict.values loaded.0.lessons)
  ok loaded

abbrev pub curriculum_of :
    List String → Gathered × List Day → List InterviewQuestion → Dict Fields → Curriculum
curriculum_of concepts loaded interview flows = record {
  concepts = concepts;
  days = loaded.1;
  lessons = loaded.0.lessons;
  ordered_lesson_ids = loaded.0.ordered;
  interview = interview;
  flows = flows;
}

unfoldable pub load_curriculum : Site → Files → Checked Curriculum
load_curriculum site files = do
  top ← load_json files.program
  program ← require_object not_an_object top
  concepts ← require_str_list program "concepts"
  raise_if (is_empty concepts) no_concepts
  loaded ← load_program site files concepts program
  interview ← load_interview concepts files.interview
  flows ← load_flows [] files.flows
  check_flows flows (Dict.values loaded.0.lessons)
  ok (curriculum_of concepts loaded interview flows)
