-- ===== src/Server/Reads.antt =====
-- The GET handlers of learning/server/app.py: `/api/state`, `/api/curriculum`, `/api/lesson/…`,
-- `/api/mastery` and `/api/flow/…`.
use flight_test_lab.Prelude.{
  ℕ, suc, String, Bool, false, not, ◌&&◌, ◌||◌, Option, none, some, List, [], ◌∷◌, str_eq, all,
  if◌then◌else◌,
}
use flight_test_lab.Dict
use flight_test_lab.Dict.{Dict}
use flight_test_lab.Result.{Result, ok, err, ◌>>=◌}
use flight_test_lab.Curriculum.{Lesson, Day, Curriculum}
use flight_test_lab.Progress.{Slot, absent, value, LessonRecord, State, Raised, key_error}
use flight_test_lab.Progress.Record.{set_default, has_status}
use flight_test_lab.Progress.Completion.{completion_map}
use flight_test_lab.Progress.Queries.{concept_mastery}
use flight_test_lab.Server.Thread
use flight_test_lab.Server.Thread.{Thread, returns, ask, of_result}
use flight_test_lab.Server.Request.{Python, unknown_lesson, unknown_flow}
use flight_test_lab.Server.Payload.{Payload, LessonRow, DayRow, Reply, success}
use flight_test_lab.Server.Views.{lesson_public, snapshot, resume}
use flight_test_lab.Server.Steps.{fail}

abbrev pub is_available : Lesson → Bool
is_available lesson = str_eq lesson.status "available"

unfoldable pub count_available : List Lesson → ℕ
count_available [] = 0
count_available (l ∷ ls) =
    let rest = count_available ls in if is_available l then suc rest else rest

-- `curriculum.lessons[lesson_id]`
unfoldable pub lesson_at : Curriculum → String → Result Raised Lesson
lesson_at c id = elim (Dict.get id c.lessons) [ none ↦ err key_error | some l ↦ ok l ]

-- How many of the lessons are available, and how many of these are complete.
unfoldable pub count_done : Curriculum → Dict Bool → List String → Result Raised (ℕ × ℕ)
count_done c complete [] = ok (0, 0)
count_done c complete (id ∷ ids) = do
  l ← lesson_at c id
  rest ← count_done c complete ids
  ok (
      if not (is_available l)
      then rest
      else if Dict.get_or id false complete
      then (suc rest.0, suc rest.1)
      else (suc rest.0, rest.1))

unfoldable pub day_rows : Curriculum → Dict Bool → List Day → Result Raised (List DayRow)
day_rows c complete [] = ok []
day_rows c complete (d ∷ ds) = do
  counts ← count_done c complete d.lesson_ids
  rest ← day_rows c complete ds
  ok (record { day = d; total = counts.0; done = counts.1 } ∷ rest)

unfoldable pub handle_state : Curriculum → Thread Reply
handle_state c = Thread.◌>>=◌ (resume c) λ resume_id.
    Thread.◌>>=◌ (ask (λ p. completion_map p.state c)) λ complete.
      Thread.◌>>=◌ (of_result (count_done c complete c.ordered_lesson_ids)) λ counts.
        Thread.◌>>=◌ (of_result (day_rows c complete c.days)) λ days.
          Thread.◌>>=◌ (ask (λ p. concept_mastery p.state c.concepts)) λ mastery. returns (
            success (
              Payload.overview resume_id (count_available (Dict.values c.lessons)) counts.1 days
                mastery))

abbrev pub status_in : Option LessonRecord → Slot String
status_in none = absent
status_in (some r) = r.status

abbrev pub is_stored_complete : Option LessonRecord → Bool
is_stored_complete none = false
is_stored_complete (some r) = has_status "complete" r

-- A lesson of the roadmap, by the recursive gate and not by the stored status alone.
abbrev pub lesson_row : State → Dict Bool → String → Lesson → LessonRow
lesson_row s complete id l = record {
  lesson = l;
  progress =
      if Dict.get_or id false complete || not (is_stored_complete (Dict.get id s.lessons))
      then set_default (status_in (Dict.get id s.lessons)) (value "not_started")
      else value "in_progress";
  is_locked = is_available l && not (all (λ p. Dict.get_or p false complete) l.prerequisites);
}

unfoldable pub lesson_rows :
    Curriculum → State → Dict Bool → List String → Result Raised (List LessonRow)
lesson_rows c s complete [] = ok []
lesson_rows c s complete (id ∷ ids) = do
  l ← lesson_at c id
  rest ← lesson_rows c s complete ids
  ok (lesson_row s complete id l ∷ rest)

unfoldable pub roadmap_rows :
    Curriculum → State → Dict Bool → List Day → Result Raised (List (Day × List LessonRow))
roadmap_rows c s complete [] = ok []
roadmap_rows c s complete (d ∷ ds) = do
  lessons ← lesson_rows c s complete d.lesson_ids
  rest ← roadmap_rows c s complete ds
  ok ((d, lessons) ∷ rest)

unfoldable pub handle_curriculum : Curriculum → Thread Reply
handle_curriculum c = Thread.◌>>=◌ snapshot λ s.
    Thread.◌>>=◌ (ask (λ p. completion_map p.state c)) λ complete.
      Thread.◌>>=◌ (of_result (roadmap_rows c s complete c.days))
        λ days. returns (success (Payload.roadmap c.concepts days))

unfoldable pub handle_lesson : Python → Curriculum → String → Thread Reply
handle_lesson py c name = elim (Dict.get (py.unquote name) c.lessons) [
  | none ↦ fail 404 (unknown_lesson name)
  | some lesson ↦
      Thread.◌>>=◌ (lesson_public c lesson) (λ view. returns (success (Payload.lesson view)))
]

unfoldable pub handle_mastery : Curriculum → Thread Reply
handle_mastery c =
    Thread.◌>>=◌ (ask (λ p. concept_mastery p.state c.concepts))
      (λ rows. returns (success (Payload.mastery rows)))

unfoldable pub handle_flow : Python → Curriculum → String → Thread Reply
handle_flow py c name = elim (Dict.get (py.unquote name) c.flows) [
  | none ↦ fail 404 (unknown_flow name)
  | some flow ↦ returns (success (Payload.flow flow))
]
