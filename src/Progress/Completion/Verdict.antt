-- ===== src/Progress/Completion/Verdict.antt =====
-- What the gates of learning/server/progress.py answer, for a state whose lesson records have all
-- their fields and a curriculum whose prerequisites are of lower rank than their lesson.
use flight_test_lab.Prelude.{
  ℕ, zero, suc, ◌<◌, String, ◌≡◌, refl, Bool, true, false, ◌&&◌, some, List, [], ◌∷◌, map, arith,
  is_empty, all, All, Option-cases, inl, inr,
}
use flight_test_lab.Dict
use flight_test_lab.Dict.{Dict, AllValues, get-put}
use flight_test_lab.Result.{Result, ok, err}
use flight_test_lab.Curriculum.{Lesson, Curriculum}
use flight_test_lab.Progress.{State, Raised}
use flight_test_lab.Progress.Store.{ProgressStore, on_record, lesson_record}
use flight_test_lab.Progress.Completion.{
  Missing, completion_map, lesson_completion, mark_complete, completed,
}
use flight_test_lab.Progress.Completion.Gates.{IsFull}
use flight_test_lab.Progress.Completion.Rule.{stands, rule, IsBackward, IsBackward-get}
use flight_test_lab.Progress.Completion.Walk.{
  Decides, lesson_completion-Decides, completion_map-eq-cert,
}

-- The rule, followed down to a depth.
certified : ℕ → State → Curriculum → String → Bool
certified zero s c id = false
certified (suc n) s c id = rule s c (certified n s c) id

-- Whether a lesson is complete: the rule, followed down as far as its prerequisites go.
unfoldable pub verdict : (String → ℕ) → State → Curriculum → String → Bool
unfolding certified
verdict rank s c id = certified (suc (rank id)) s c id

all-cong : (p q : String → Bool) (xs : List String) → All (λ x. p x ≡ q x) xs → all p xs ≡ all q xs
all-cong p q [] h = refl
all-cong p q (x ∷ xs) h = rw (h.0, all-cong p q xs h.1)

-- What `mark_complete` has done, by whether the gates hold: the lesson is marked and saved, and nothing
-- is missing; or something is missing, and nothing has changed.
abbrev pub Marked :
    String
    → Lesson
    → ProgressStore
    → Bool
    → Result Raised (Bool × List Missing) × ProgressStore
    → Type 0
Marked now l p true (r, q) =
    (r ≡ ok (true, []))
    × (q.state.lessons ≡ Dict.put l.id (completed now (lesson_record l.id p.state)) p.state.lessons)
    × (q.saved ≡ q.state)
Marked now l p false (ok (complete, missing), q) =
    (complete ≡ false) × (is_empty missing ≡ false) × (q ≡ p)
Marked now l p false (err e, q) = ⊥

mark_complete-of :
    (c : Curriculum) (now : String) (l : Lesson) (p : ProgressStore) (gate : Bool)
    (r : Result Raised (Bool × List Missing))
    → Decides gate r
    → lesson_completion p.state l (some c) ≡ r
    → Marked now l p gate (mark_complete now l (some c) p)
unfolding mark_complete on_record
mark_complete-of c now l p true (ok (true, ms)) d e =
    rw (e, Marked, mark_complete) (refl, refl, refl)
mark_complete-of c now l p true (ok (false, ms)) d e = cc (d.0)
mark_complete-of c now l p true (err x) d e = absurd d
mark_complete-of c now l p false (ok (true, ms)) d e = cc (d.0)
mark_complete-of c now l p false (ok (false, ms)) d e =
    let same : mark_complete now l (some c) p ≡ (ok (false, ms), p) = rw (e, mark_complete) in
    rw (same, Marked) (refl, d.1, refl)
mark_complete-of c now l p false (err x) d e = absurd d

module _ (s : State) (c : Curriculum) (rank : String → ℕ)
    (backward : IsBackward rank c.lessons) where
  agree_below :
      (p q : String → Bool) (k : ℕ) (xs : List String)
      → ((x : String) → rank x < k → p x ≡ q x)
      → All (λ x. rank x < k) xs
      → All (λ x. p x ≡ q x) xs
  agree_below p q k [] h low = tt
  agree_below p q k (x ∷ xs) h low = (h x low.0, agree_below p q k xs h low.1)

  rule-cong :
      (p q : String → Bool) (id : String)
      → ((x : String) → rank x < rank id → p x ≡ q x)
      → rule s c p id ≡ rule s c q id
  unfolding rule
  rule-cong p q id h = elim (Option-cases (Dict.get id c.lessons)) [
    | inl unknown ↦ rw unknown
    | inr (l, known) ↦
        let low = (IsBackward-get rank id c.lessons backward known).1 in
        rw (known, all-cong p q l.prerequisites (agree_below p q (rank id) l.prerequisites h low))
  ]

  certified_stable :
      (m n : ℕ) (id : String) → rank id < m → rank id < n → certified m s c id ≡ certified n s c id
  unfolding certified
  certified_stable zero n id h k = elim h [ ]
  certified_stable (suc m) zero id h k = elim k [ ]
  certified_stable (suc m) (suc n) id h k =
      rule-cong (certified m s c) (certified n s c) id
        (λ x low. certified_stable m n x (omega arith) (omega arith))

  pub verdict_solves : (id : String) → verdict rank s c id ≡ rule s c (verdict rank s c) id
  unfolding verdict
  verdict_solves id =
      rule-cong (certified (rank id) s c) (verdict rank s c) id
        (λ x low. certified_stable (rank id) (suc (rank x)) x low (omega arith))

  module _ (full : AllValues IsFull s.lessons) where
    -- With complete lesson records and backward prerequisites, `completion_map` raises nothing and gives
    -- every lesson of the program its verdict; and the verdict of any lesson is the recursive rule:
    -- marked complete, and, if the curriculum has it, available, with its own gates holding and every
    -- prerequisite complete by the same verdict.
    pub completion_map-eq-verdict :
        (id : String)
        → (completion_map s c ≡ ok (map (λ i. (i, verdict rank s c i)) c.ordered_lesson_ids))
          × (verdict rank s c id ≡ rule s c (verdict rank s c) id)
    completion_map-eq-verdict id = (
      completion_map-eq-cert s c full rank backward (verdict rank s c) verdict_solves,
      verdict_solves id,
    )

    -- With complete lesson records and backward prerequisites, `lesson_completion` of a lesson of the
    -- curriculum raises nothing; it answers true exactly if the lesson is available, its own gates hold
    -- and every prerequisite is complete by the verdict, and exactly then it names no missing
    -- requirement.
    pub lesson_completion-eq-verdict :
        (l : Lesson)
        → Dict.get l.id c.lessons ≡ some l
        → Decides
            (stands s l && all (verdict rank s c) l.prerequisites)
            (lesson_completion s l (some c))
    lesson_completion-eq-verdict l known =
        lesson_completion-Decides s c full rank backward (verdict rank s c) verdict_solves l known

-- With complete lesson records and backward prerequisites, `mark_complete` of a lesson of the
-- curriculum raises nothing. If the lesson is available, its own gates hold and every prerequisite is
-- complete by the verdict, it writes `complete` and the time into the record, saves, and reports
-- nothing missing; otherwise it names what is missing and changes neither the state nor the file.
pub mark_complete-Marked :
    (c : Curriculum) (rank : String → ℕ) (now : String) (l : Lesson) (p : ProgressStore)
    → IsBackward rank c.lessons
    → AllValues IsFull p.state.lessons
    → Dict.get l.id c.lessons ≡ some l
    → Marked now l p
        (stands p.state l && all (verdict rank p.state c) l.prerequisites)
        (mark_complete now l (some c) p)
mark_complete-Marked c rank now l p backward full known =
    mark_complete-of c now l p _ _
      (lesson_completion-eq-verdict p.state c rank backward full l known) refl
