-- ===== src/Progress/Completion/Loaded.antt =====
-- The gates of learning/server/progress.py over a curriculum that learning/server/curriculum.py has
-- loaded.
use flight_test_lab.Prelude.{
  ◌<◌, String, ◌≡◌, refl, Bool, false, List, [], ◌∷◌, All, is_empty, arith,
}
use mathlib.Core.Path.{subst}
use flight_test_lab.Dict
use flight_test_lab.Dict.{Dict, AllValues}
use flight_test_lab.Result.{Result, ok, err}
use flight_test_lab.Curriculum.{Lesson, Curriculum}
use flight_test_lab.Curriculum.Values.{Site}
use flight_test_lab.Curriculum.Files.{Files}
use flight_test_lab.Curriculum.Load.{load_curriculum}
use flight_test_lab.Curriculum.Places.{Precedes, IsAfter, rank_in, Precedes-rank}
use flight_test_lab.Curriculum.Order.{IsKeyed, load_curriculum-IsOrdered}
use flight_test_lab.Progress.{State, Raised, index_error}
use flight_test_lab.Progress.Completion.{resume_lesson_id}
use flight_test_lab.Progress.Completion.Gates.{IsFull}
use flight_test_lab.Progress.Completion.Rule.{IsBackward}
use flight_test_lab.Progress.Completion.Verdict.{verdict}
use flight_test_lab.Progress.Completion.Resume.{IsSensible, Resumes, resume_lesson_id-Resumes}

-- Every prerequisite of a lesson is a lesson of the program, at a place before the lesson's own.
abbrev pub IsPlaced : List String → Dict Lesson → Type 0
IsPlaced ordered d = AllValues (IsAfter ordered) d

ranks :
    (ordered : List String) (id : String) (ps : List String)
    → All (λ p. Precedes ordered p id) ps
    → All (λ p. rank_in ordered p < rank_in ordered id) ps
ranks ordered id [] h = tt
ranks ordered id (p ∷ ps) h = (Precedes-rank ordered p id h.0, ranks ordered id ps h.1)

values-IsPlaced :
    (ordered : List String) (d : Dict Lesson)
    → All (IsAfter ordered) (Dict.values d)
    → IsPlaced ordered d
unfolding Dict.values
values-IsPlaced ordered [] after = tt
values-IsPlaced ordered ((k, l) ∷ d) after = (after.0, values-IsPlaced ordered d after.1)

after-IsBackward :
    (ordered : List String) (d : Dict Lesson)
    → IsKeyed d
    → All (IsAfter ordered) (Dict.values d)
    → IsBackward (rank_in ordered) d
unfolding Dict.values
after-IsBackward ordered [] keyed after = tt
after-IsBackward ordered ((k, l) ∷ d) keyed after = (
  keyed.0,
  subst (λ j. All (λ p. rank_in ordered p < rank_in ordered j) l.prerequisites) keyed.0
      (ranks ordered l.id l.prerequisites after.0),
  after-IsBackward ordered d keyed.1 after.1,
)

-- In every curriculum that the loader accepts, each lesson stands under its own id, and each of its
-- prerequisites is a lesson of the program, at a place before the lesson's own.
pub load_curriculum-IsBackward :
    (site : Site) (files : Files) {c : Curriculum}
    → load_curriculum site files ≡ ok c
    → IsBackward (rank_in c.ordered_lesson_ids) c.lessons × IsPlaced c.ordered_lesson_ids c.lessons
load_curriculum-IsBackward site files {c} h =
    let ordered = load_curriculum-IsOrdered site files h in
    (
      after-IsBackward c.ordered_lesson_ids c.lessons ordered.keyed ordered.after,
      values-IsPlaced c.ordered_lesson_ids c.lessons ordered.after,
    )

answered :
    (c : Curriculum) (v : String → Bool) (r : Result Raised String)
    → is_empty c.ordered_lesson_ids ≡ false
    → Resumes c v r
    → (id : String) × (r ≡ ok id) × IsSensible c v id
answered c v (err index_error) h r = absurd (ground (arith, h, r))
answered c v (err _) h r = absurd r
answered c v (ok id) h r = (id, refl, r)

-- Over every curriculum that the loader accepts, and with complete records, the learner is sent to a
-- lesson: to one that can be worked on, or, where none can be, to the last one of the program.
pub resume_lesson_id-IsSensible :
    (site : Site) (files : Files) (s : State) {c : Curriculum}
    → load_curriculum site files ≡ ok c
    → AllValues IsFull s.lessons
    → (id : String) × (resume_lesson_id s c ≡ ok id)
      × IsSensible c (verdict (rank_in c.ordered_lesson_ids) s c) id
resume_lesson_id-IsSensible site files s {c} h full =
    let backward = (load_curriculum-IsBackward site files h).0 in
    let resumes = resume_lesson_id-Resumes s c (rank_in c.ordered_lesson_ids) backward full in
    let ordered = load_curriculum-IsOrdered site files h in
    answered c (verdict (rank_in c.ordered_lesson_ids) s c) (resume_lesson_id s c)
      ordered.some_lesson resumes
