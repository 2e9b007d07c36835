-- ===== src/Curriculum/Gathering.antt =====
-- Invariants of the loops in `load_curriculum` of learning/server/curriculum.py that gather the lessons.
use flight_test_lab.Prelude.{List, String, ◌≡◌, [], ◌∷◌}
use flight_test_lab.Prelude.Int.{ℤ}
use flight_test_lab.Dict
use flight_test_lab.Dict.{Dict}
use flight_test_lab.Result.{ok, raise_if-eq-ok, >>=-eq-ok, ok-injective}
use flight_test_lab.Json.{Json, Items, Fields, get}
use flight_test_lab.Curriculum.{Lesson, Day}
use flight_test_lab.Curriculum.Values.{bad_module, require_str, as_int, Site}
use flight_test_lab.Curriculum.Schema.{parse_lesson}
use flight_test_lab.Curriculum.Files.{
  Files, require_object, check_concepts, require_list, load_json,
}
use flight_test_lab.Curriculum.Load.{
  Gathered, gather, load_lesson, load_lessons, load_day, load_days, require_day, require_name,
  day_of,
}

-- A lesson that the parser has made.
abbrev pub IsParsed : Site → Lesson → Type 0
IsParsed site l = (day : ℤ) × (data_ : Fields) × (parse_lesson site day data_ ≡ ok l)

-- What holds of the lessons so far, and stays so when a parsed lesson is put among them, holds of all
-- that are gathered.
module _ (site : Site) (P : Dict Lesson → Type 0)
    (P-put : (l : Lesson) (d : Dict Lesson) → IsParsed site l → P d → P (Dict.put l.id l d)) where
  load_lesson-keeps :
      (concepts : List String) (day : ℤ) (g : Gathered) (raw : Json) {g' : Gathered}
      → load_lesson site concepts day g raw ≡ ok g'
      → P g.lessons
      → P g'.lessons
  unfolding load_lesson
  load_lesson-keeps concepts day g raw {g'} h kept =
      let (data_, object, h₁) = >>=-eq-ok (require_object _ raw) _ {b = g'} h in
      let (l, parsed, h₂) = >>=-eq-ok (parse_lesson site day data_) _ h₁ in
      let (fresh, h₃) = raise_if-eq-ok _ _ _ h₂ in
      let (u, known, h₄) = >>=-eq-ok (check_concepts _ concepts l.concepts) _ h₃ in
      let same : gather l g ≡ g' = ok-injective h₄ in
      rw (← same) (P-put l g.lessons (day, data_, parsed) kept)

  load_lessons-keeps :
      (concepts : List String) (day : ℤ) (g : Gathered) (raws : Items) {g' : Gathered}
      → load_lessons site concepts day g raws ≡ ok g'
      → P g.lessons
      → P g'.lessons
  unfolding load_lessons
  load_lessons-keeps concepts day g Items.nil {g'} h kept =
      let same : g ≡ g' = ok-injective h in rw (← same) kept
  load_lessons-keeps concepts day g (Items.cons raw raws) h kept =
      let (next, first, rest) = >>=-eq-ok (load_lesson site concepts day g raw) _ h in
      load_lessons-keeps concepts day next raws rest
        (load_lesson-keeps concepts day g raw first kept)

  load_day-keeps :
      (files : Files) (concepts : List String) (g : Gathered) (raw : Json) {r : Gathered × Day}
      → load_day site files concepts g raw ≡ ok r
      → P g.lessons
      → P r.0.lessons
  unfolding load_day
  load_day-keeps files concepts g raw {r} h kept =
      let (entry, e₁, h₁) = >>=-eq-ok (require_object _ raw) _ {b = r} h in
      let (day, e₂, h₂) = >>=-eq-ok (require_day (as_int (get "day" entry))) _ h₁ in
      let (name, e₃, h₃) = >>=-eq-ok (require_name (get "module" entry)) _ h₂ in
      let (title, e₄, h₄) = >>=-eq-ok (require_str entry "title") _ h₃ in
      let (loaded, e₅, h₅) = >>=-eq-ok (load_json (files.module_ name)) _ h₄ in
      let (module_, e₆, h₆) = >>=-eq-ok (require_object bad_module loaded) _ h₅ in
      let (lessons, e₇, h₇) = >>=-eq-ok (require_list bad_module (get "lessons" module_)) _ h₆ in
      let (g', e₈, h₈) =
        >>=-eq-ok (load_lessons site concepts day (record g { lesson_ids = [] }) lessons) _ h₇ in
      let same : (g', day_of site day title entry g') ≡ r = ok-injective h₈ in
      rw (← same) (load_lessons-keeps concepts day (record g { lesson_ids = [] }) lessons e₈ kept)

  pub load_days-keeps :
      (files : Files) (concepts : List String) (g : Gathered) (raws : Items)
      {r : Gathered × List Day}
      → load_days site files concepts g raws ≡ ok r
      → P g.lessons
      → P r.0.lessons
  unfolding load_days
  load_days-keeps files concepts g Items.nil {r} h kept =
      let same : ◌≡◌ {A = Gathered × List Day} (g, []) r = ok-injective h in rw (← same) kept
  load_days-keeps files concepts g (Items.cons raw raws) {r} h kept =
      let (first, e₁, h₁) = >>=-eq-ok (load_day site files concepts g raw) _ {b = r} h in
      let (rest, e₂, h₂) = >>=-eq-ok (load_days site files concepts first.0 raws) _ h₁ in
      let same : ◌≡◌ {A = Gathered × List Day} (rest.0, first.1 ∷ rest.1) r = ok-injective h₂ in
      rw (← same) (
        load_days-keeps files concepts first.0 raws e₂
          (load_day-keeps files concepts g raw e₁ kept))
