-- ===== src/Curriculum/Schema.antt =====
-- `_parse_lesson` of learning/server/curriculum.py.
use flight_test_lab.Prelude.{
  ℕ, ◌+◌, ◌*◌, ◌^◌, String, Bool, true, false, not, ◌&&◌, ◌||◌, Option, none, some, List, [], ◌∷◌,
  ◌==◌, str_eq, contains, if◌then◌else◌,
}
use flight_test_lab.Prelude.Int.{ℤ, pos, negsuc, ltb_ℤ}
use flight_test_lab.Result.{ok, err, ◌>>=◌, ◌>>◌, raise_if}
use flight_test_lab.Json.{Json, Fields, Float, bool, int, str, member, get, truthy}
use flight_test_lab.Curriculum.{Lesson}
use flight_test_lab.Curriculum.Values.{
  bad_minutes, bad_status, no_reason, no_blocks, bad_blocks, bad_hints, bad_hint,
  unknown_requirement, Checked, Site, require_str, require_str_list, get_list, require_objects,
  as_int,
}
use flight_test_lab.Curriculum.Blocks.{validate_blocks}

abbrev pub known_requirements : List String
known_requirements = "cpp-build" ∷ "gdb" ∷ []

-- `toolchain.satisfies(requirement)`
abbrev pub satisfies : Site → String → Bool
satisfies site r =
    if str_eq r "cpp-build" then site.can_build_cpp else str_eq r "gdb" && site.can_debug

-- The loop over `requires`: the status and the reason.
unfoldable pub offer : Site → String × String → List String → Checked (String × String)
offer site offered [] = ok offered
offer site offered (r ∷ rs) =
    raise_if (not (contains r known_requirements)) (unknown_requirement r)
    >> (if satisfies site r then offer site offered rs else ok ("unavailable", site.reason r))

-- `value == n`, for a positive `n`
abbrev pub equals_count : ℕ → Json → Bool
equals_count n (int (pos m)) = m == n
equals_count n (bool true) = n == 1
equals_count n (Json.float (Float.dyadic (pos m) (pos e))) = m * 2 ^ e == n
equals_count n (Json.float (Float.dyadic (pos m) (negsuc e))) = m == n * 2 ^ (e + 1)
equals_count n _ = false

abbrev pub is_string : Json → Bool
is_string (str s) = true
is_string _ = false

unfoldable pub check_hints : ℕ → List Fields → Checked (Unit {0})
check_hints index [] = ok tt
check_hints index (h ∷ hs) =
    raise_if (not (equals_count (index + 1) (get "level" h)) || not (is_string (get "text" h)))
      (bad_hint (index + 1))
    >> check_hints (index + 1) hs

abbrev pub require_minutes : Option ℤ → Checked ℤ
require_minutes none = err bad_minutes
require_minutes (some n) = if ltb_ℤ n (pos 1) then err bad_minutes else ok n

-- `data.get("status", "available")`, one of the two
abbrev pub require_status : Option Json → Checked String
require_status none = ok "available"
require_status (some (str s)) =
    if str_eq s "available" || str_eq s "unavailable" then ok s else err bad_status
require_status (some _) = err bad_status

abbrev pub text_or_none : Json → Option String
text_or_none (str s) = some s
text_or_none _ = none

-- `str(data.get(key, ""))`
abbrev pub str_or_empty : Site → String → Fields → String
str_or_empty site key data_ = elim (member key data_) [ none ↦ "" | some v ↦ site.py_str v ]

unfoldable pub parse_lesson : Site → ℤ → Fields → Checked Lesson
parse_lesson site day data_ = do
  id ← require_str data_ "id"
  title ← require_str data_ "title"
  objective ← require_str data_ "objective"
  minutes ← require_minutes (as_int (get "estimated_minutes" data_))
  status ← require_status (member "status" data_)
  raise_if (str_eq status "unavailable" && str_eq (str_or_empty site "unavailable_reason" data_) "")
      no_reason
  requires ← require_str_list data_ "requires"
  offered ← offer site (status, str_or_empty site "unavailable_reason" data_) requires
  raise_if (str_eq offered.0 "available" && not (truthy (get_list "blocks" data_))) no_blocks
  blocks ← require_objects bad_blocks (get_list "blocks" data_)
  validate_blocks site [] blocks
  hints ← require_objects bad_hints (get_list "hints" data_)
  check_hints 0 hints
  concepts ← require_str_list data_ "concepts"
  prerequisites ← require_str_list data_ "prerequisites"
  source_files ← require_str_list data_ "source_files"
  requirements ← require_str_list data_ "requirements"
  ok (record {
    id = id;
    day = day;
    title = title;
    objective = objective;
    estimated_minutes = minutes;
    status = offered.0;
    unavailable_reason = offered.1;
    concepts = concepts;
    prerequisites = prerequisites;
    source_files = source_files;
    flow = text_or_none (get "flow" data_);
    blocks = blocks;
    hints = hints;
    requirements = requirements;
    requires = requires;
  })
