-- ===== src/Curriculum/Order.antt =====
-- What `load_curriculum` of learning/server/curriculum.py lets through: every lesson stands under its
-- own id, and its prerequisites come before it.
use flight_test_lab.Prelude.{
  String, ◌≡◌, refl, sym, inl, inr, false, List, [], ◌∷◌, All, str_eq, eq_iff, is_empty, Bool-cases,
}
use flight_test_lab.Dict
use flight_test_lab.Dict.{Dict, AllValues, AllValues-put}
use flight_test_lab.Result.{ok, raise_if-eq-ok, >>=-eq-ok, ok-injective}
use flight_test_lab.Json.{Fields, get}
use flight_test_lab.Curriculum.{Lesson, Day, Curriculum}
use flight_test_lab.Curriculum.Values.{
  no_days, no_lessons, no_concepts, not_an_object, Site, require_str_list,
}
use flight_test_lab.Curriculum.Files.{Files, require_object, require_list, load_json, is_nil}
use flight_test_lab.Curriculum.Interview.{load_interview}
use flight_test_lab.Curriculum.Load.{
  Gathered, load_days, check_lessons, load_program, load_curriculum, nothing_gathered, load_flows,
  check_flows, curriculum_of,
}
use flight_test_lab.Curriculum.Gathering.{IsParsed, load_days-keeps}
use flight_test_lab.Curriculum.Places.{IsAfter, check_lessons-IsAfter}

-- Every lesson stands under its own id.
abbrev pub IsKeyed : Dict Lesson → Type 0
IsKeyed [] = Unit
IsKeyed ((k, l) ∷ d) = (l.id ≡ k) × IsKeyed d

put-IsKeyed : (l : Lesson) (d : Dict Lesson) → IsKeyed d → IsKeyed (Dict.put l.id l d)
unfolding Dict.put
put-IsKeyed l [] h = (refl, tt)
put-IsKeyed l ((k, m) ∷ d) h = elim (Bool-cases (str_eq k l.id)) [
  | inl here ↦ rw here (sym ((eq_iff k l.id).0 here), h.1)
  | inr there ↦ rw there (h.0, put-IsKeyed l d h.1)
]

-- What the loader says of the lessons that it gathered.
pub record IsOrdered (site : Site) (lessons : Dict Lesson) (ordered : List String) : Type 0 where
  pub keyed : IsKeyed lessons
  pub parsed : AllValues (IsParsed site) lessons
  pub after : All (IsAfter ordered) (Dict.values lessons)
  pub some_lesson : is_empty ordered ≡ false

load_program-IsOrdered :
    (site : Site) (files : Files) (concepts : List String) (program : Fields)
    {r : Gathered × List Day}
    → load_program site files concepts program ≡ ok r
    → IsOrdered site r.0.lessons r.0.ordered
unfolding load_program
load_program-IsOrdered site files concepts program {r} h =
    let (entries, e₁, h₁) = >>=-eq-ok (require_list no_days (get "days" program)) _ {b = r} h in
    let (some_day, h₂) = raise_if-eq-ok (is_nil entries) no_days _ h₁ in
    let (loaded, e₃, h₃) =
      >>=-eq-ok (load_days site files concepts nothing_gathered entries) _ h₂ in
    let (some_lesson, h₄) = raise_if-eq-ok (is_empty loaded.0.ordered) no_lessons _ h₃ in
    let (u, checked, h₅) =
      >>=-eq-ok (check_lessons loaded.0.lessons loaded.0.ordered (Dict.values loaded.0.lessons)) _
        h₄ in
    let same : loaded ≡ r = ok-injective h₅ in
    rw (← same) (record {
      keyed =
          load_days-keeps site IsKeyed (λ l d parsed. put-IsKeyed l d) files concepts
            nothing_gathered entries e₃ tt;
      parsed =
          load_days-keeps site (AllValues (IsParsed site))
            (λ l d parsed kept. AllValues-put (IsParsed site) l.id l d kept parsed) files concepts
            nothing_gathered entries e₃ tt;
      after = check_lessons-IsAfter loaded.0.lessons loaded.0.ordered _ checked;
      some_lesson = some_lesson;
    })

pub load_curriculum-IsOrdered :
    (site : Site) (files : Files) {c : Curriculum}
    → load_curriculum site files ≡ ok c
    → IsOrdered site c.lessons c.ordered_lesson_ids
unfolding load_curriculum
load_curriculum-IsOrdered site files {c} h =
    let (top, e₁, h₁) = >>=-eq-ok (load_json files.program) _ {b = c} h in
    let (program, e₂, h₂) = >>=-eq-ok (require_object not_an_object top) _ h₁ in
    let (concepts, e₃, h₃) = >>=-eq-ok (require_str_list program "concepts") _ h₂ in
    let (some_concept, h₄) = raise_if-eq-ok (is_empty concepts) no_concepts _ h₃ in
    let (loaded, e₅, h₅) = >>=-eq-ok (load_program site files concepts program) _ h₄ in
    let (interview, e₆, h₆) = >>=-eq-ok (load_interview concepts files.interview) _ h₅ in
    let (flows, e₇, h₇) = >>=-eq-ok (load_flows [] files.flows) _ h₆ in
    let (u, e₈, h₈) = >>=-eq-ok (check_flows flows (Dict.values loaded.0.lessons)) _ h₇ in
    let same : curriculum_of concepts loaded interview flows ≡ c = ok-injective h₈ in
    rw (← same) (load_program-IsOrdered site files concepts program e₅)
