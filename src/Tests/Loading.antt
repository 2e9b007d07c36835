-- ===== src/Tests/Loading.antt =====
-- A concrete record for the loader of learning/server/progress.py.
use flight_test_lab.Prelude.{◌≡◌}
use flight_test_lab.Prelude.Int.{pos}
use flight_test_lab.Dict.{is_some}
use flight_test_lab.Json.{Json, Fields}
use flight_test_lab.Progress.Loading.{StateFile, record_is_valid, load}
use flight_test_lab.Progress.Loading.Sound.{IsLoaded, load-IsLoaded}
use flight_test_lab.Progress.Loading.Typed.{
  read_lesson, read_concept, read_entry, record_is_valid-eq-is_some,
}

-- {"attempts": 1000001, "correct": 3}
abbrev overfull : Fields
overfull =
    Fields.field "attempts" (Json.int (pos 1_000_001))
      (Fields.field "correct" (Json.int (pos 3)) Fields.end)

record_is_valid-eq-is_some_example :
    (record_is_valid "lessons" overfull ≡ is_some (read_lesson overfull))
    × (record_is_valid "concepts" overfull ≡ is_some (read_concept overfull))
    × (record_is_valid "interview" overfull ≡ is_some (read_entry overfull))
record_is_valid-eq-is_some_example = record_is_valid-eq-is_some overfull

-- {"version": 1, "concepts": {"tcp": {"attempts": 1000001, "correct": 3}}}
abbrev state_file : StateFile
state_file = StateFile.holds (
    Json.obj (
      Fields.field "version" (Json.int (pos 1)) (
        Fields.field "concepts" (Json.obj (Fields.field "tcp" (Json.obj overfull) Fields.end))
          Fields.end)))

load-IsLoaded_example : IsLoaded (load state_file).0
load-IsLoaded_example = load-IsLoaded state_file
