-- ===== src/Progress/Completion/Walk.antt =====
-- The completion gates compute the rule: for records without gaps and a curriculum whose prerequisites
-- point backwards, the recursive walk of the code answers what the rule answers.
use flight_test_lab.Prelude.{
  ℕ, zero, suc, ◌<◌, String, ◌≡◌, refl, sym, ◌∙◌, Bool, true, false, ◌&&◌, ◌||◌, none, some, List,
  [], map, ◌∷◌, ◌++◌, arith, str_eq, eq_iff, contains, is_empty, all, Bool-cases, Option-cases, inl,
  inr,
}
use mathlib.Core.Path.{subst}
use flight_test_lab.Dict
use flight_test_lab.Dict.{Dict, AllValues, AllValues-get}
use flight_test_lab.Result.{Result, ok, err, ◌>>=◌}
use flight_test_lab.Curriculum.{Lesson, Curriculum}
use flight_test_lab.Progress.{State, Raised}
use flight_test_lab.Progress.Completion.{
  Missing, CompletionCall, missing_prerequisites, completion_of, marked_complete, is_complete,
  with_seen, fuel_for, lesson_completion, map_over, completion_map,
}
use flight_test_lab.Progress.Completion.Gates.{
  IsFull, gates_hold, Reports, is_empty-append, missing_gates-Reports,
}
use flight_test_lab.Progress.Completion.Rule.{
  stands, rule, IsBackward, IsBackward-get, unseen, unseen-le, unseen-cons, unseen-new,
}
use flight_test_lab.Progress.Completion.Siblings.{
  SeenComplete, Settles, Settles-ok, Answers, Succeeds, missing_prerequisites-Succeeds,
  missing_prerequisites-Reports,
}

-- The flag of a completion.
abbrev pub Decides : Bool → Result Raised (Bool × List Missing) → Type 0
Decides b (ok (complete, missing)) = (complete ≡ b) × (is_empty missing ≡ complete)
Decides b (err e) = ⊥

Decides-parts :
    (a b : Bool) (x y : Result Raised (List Missing))
    → Reports a x
    → Reports b y
    → Decides (b && a) (x >>= λ u. y >>= λ v. ok (is_empty (u ++ v), u ++ v))
Decides-parts a b (ok u) (ok v) f g = ground (arith, is_empty-append u v)
Decides-parts a b (ok u) (err e) f g = absurd g
Decides-parts a b (err e) y f g = absurd f

module _ (s : State) (c : Curriculum) (full : AllValues IsFull s.lessons) where
  completion_of-Decides :
      (call : CompletionCall) (l : Lesson) (seen : List String) (b : Bool)
      → Reports b (missing_prerequisites call l.prerequisites (l.id ∷ seen))
      → Decides (stands s l && b) (completion_of call s l seen)
  unfolding completion_of stands
  completion_of-Decides call l seen b h = elim (Bool-cases (str_eq l.status "unavailable")) [
    | inl off ↦ rw off (refl, refl)
    | inr on ↦ rw on (elim (Option-cases (Dict.get l.id s.lessons)) [
      | inl fresh ↦ rw fresh (refl, refl)
      | inr (r, kept) ↦ rw kept (
          Decides-parts b (gates_hold r l) _ _ h
            (missing_gates-Reports r l (AllValues-get IsFull l.id s.lessons full kept)))
    ])
  ]

  with_seen-Settles :
      (id : String) (seen : List String) (b : Bool) (m : Result Raised (Bool × List Missing))
      → Decides b m
      → Settles id seen (with_seen (id ∷ seen) m)
  with_seen-Settles id seen b (ok a) h = inr refl
  with_seen-Settles id seen b (err e) h = absurd h

  with_seen-Answers :
      (seen : List String) (b : Bool) (m : Result Raised (Bool × List Missing))
      → Decides b m
      → Answers b (with_seen seen m)
  with_seen-Answers seen b (ok a) h = h.0
  with_seen-Answers seen b (err e) h = h

  Reports-of : (m : Result Raised (List Missing)) → Succeeds m → (b : Bool) × Reports b m
  Reports-of (ok ms) h = (is_empty ms, refl)
  Reports-of (err e) h = absurd h

  -- Two lessons added to the set, one of them new: the fuel of a nested call is enough.
  room :
      (fuel : ℕ) (id : String) (seen : List String) (l : Lesson)
      → unseen seen c.lessons < suc fuel
      → Dict.get id c.lessons ≡ some l
      → contains id seen ≡ false
      → unseen (l.id ∷ id ∷ seen) c.lessons < fuel
  room fuel id seen l h e new =
      omega (arith, unseen-cons l.id (id ∷ seen) c.lessons, unseen-new id seen c.lessons e new)

  -- For records without gaps the walk ends with an answer, also through a cycle of prerequisites.
  pub is_complete-Settles :
      (fuel : ℕ) (id : String) (seen : List String)
      → unseen seen c.lessons < fuel
      → Settles id seen (is_complete fuel s (some c) id seen)
  unfolding is_complete
  is_complete-Settles zero id seen h = elim h [ ]
  is_complete-Settles (suc fuel) id seen h = elim (Bool-cases (marked_complete s id)) [
    | inl marked ↦
        rw (marked, Settles)
          (elim (Bool-cases (contains id seen)) [
            | inl old ↦ rw (old, Settles) (inl refl)
            | inr new ↦
                rw (new, Settles)
                  (elim (Option-cases (Dict.get id c.lessons)) [
                    | inl unknown ↦ rw (unknown, Settles) (inl refl)
                    | inr (l, known) ↦
                        let call = is_complete fuel s (some c) in
                        let (b, report) =
                          Reports-of (missing_prerequisites call l.prerequisites (l.id ∷ id ∷ seen))
                            (missing_prerequisites-Succeeds c.lessons fuel call
                              (is_complete-Settles fuel) l.prerequisites (l.id ∷ id ∷ seen)
                              (room fuel id seen l h known new)) in
                        rw (known, Settles)
                          (with_seen-Settles id seen _ _
                            (completion_of-Decides call l (id ∷ seen) b report))
                  ])
          ])
    | inr unmarked ↦ rw (unmarked, Settles) (inl refl)
  ]

  module _ (rank : String → ℕ) (backward : IsBackward rank c.lessons) (cert : String → Bool)
      (solves : (id : String) → cert id ≡ rule s c cert id) where
    lt_irrefl : (n : ℕ) → ¬ (n < n)
    lt_irrefl n h = omega arith

    below_itself :
        (id q : String) (l : Lesson)
        → l.id ≡ id
        → (str_eq l.id q || str_eq id q) ≡ true
        → ¬ (rank q < rank id)
    below_itself id q l key same low =
        let here : id ≡ q = ground (arith, eq_iff l.id q, eq_iff id q) in
        lt_irrefl (rank id) (rw (← here) at low)

    seen_below :
        (id : String) (seen : List String) (l : Lesson)
        → l.id ≡ id
        → SeenComplete rank cert seen (suc (rank id))
        → SeenComplete rank cert (l.id ∷ id ∷ seen) (rank id)
    seen_below id seen l key all_seen q found low =
        elim (Bool-cases (str_eq l.id q || str_eq id q)) [
          | inl same ↦ absurd (below_itself id q l key same low)
          | inr other ↦ all_seen q (ground arith) (omega arith)
        ]

    solves_unmarked : (id : String) → marked_complete s id ≡ false → false ≡ cert id
    unfolding rule
    solves_unmarked id unmarked = rw (solves id, unmarked)

    solves_unknown :
        (id : String) → marked_complete s id ≡ true → Dict.get id c.lessons ≡ none → true ≡ cert id
    unfolding rule
    solves_unknown id marked unknown = rw (solves id, marked, unknown)

    solves_known :
        (id : String) (l : Lesson)
        → marked_complete s id ≡ true
        → Dict.get id c.lessons ≡ some l
        → cert id ≡ (stands s l && all cert l.prerequisites)
    unfolding rule
    solves_known id l marked known = solves id ∙ (rw (marked, known))

    pub is_complete-Answers :
        (fuel : ℕ) (id : String) (seen : List String)
        → unseen seen c.lessons < fuel
        → SeenComplete rank cert seen (suc (rank id))
        → Answers (cert id) (is_complete fuel s (some c) id seen)
    unfolding is_complete rule
    is_complete-Answers zero id seen h all_seen = elim h [ ]
    is_complete-Answers (suc fuel) id seen h all_seen = elim (Bool-cases (marked_complete s id)) [
      | inl marked ↦
          rw (marked, Answers)
            (elim (Bool-cases (contains id seen)) [
              | inl old ↦ rw (old, Answers) (sym (all_seen id old (omega arith)))
              | inr new ↦
                  rw (new, Answers)
                    (elim (Option-cases (Dict.get id c.lessons)) [
                      | inl unknown ↦ rw (unknown, Answers) (solves_unknown id marked unknown)
                      | inr (l, known) ↦
                          let call = is_complete fuel s (some c) in
                          let (key, low) = IsBackward-get rank id c.lessons backward known in
                          let left = room fuel id seen l h known new in
                          let report =
                            missing_prerequisites-Reports c.lessons fuel call
                              (is_complete-Settles fuel) rank cert (is_complete-Answers fuel)
                              (rank id) l.prerequisites (l.id ∷ id ∷ seen) left
                              (seen_below id seen l key all_seen) low in
                          let done = completion_of-Decides call l (id ∷ seen) _ report in
                          rw (known, Answers)
                            (subst
                              (λ (b : Bool).
                                Answers b
                                  (with_seen (id ∷ seen) (completion_of call s l (id ∷ seen))))
                              (sym (solves_known id l marked known))
                              (with_seen-Answers (id ∷ seen) _ _ done))
                    ])
            ])
      | inr unmarked ↦ rw (unmarked, Answers) (solves_unmarked id unmarked)
    ]

    nothing_seen : (k : ℕ) → SeenComplete rank cert [] k
    nothing_seen k q found low = cc

    -- The completion of a lesson of the curriculum, asked from outside.
    pub lesson_completion-Decides :
        (l : Lesson)
        → Dict.get l.id c.lessons ≡ some l
        → Decides (stands s l && all cert l.prerequisites) (lesson_completion s l (some c))
    unfolding lesson_completion
    lesson_completion-Decides l known =
        let (_, low) = IsBackward-get rank l.id c.lessons backward known in
        let first =
          λ (q : String) (found : contains q (l.id ∷ []) ≡ true) (below : rank q < rank l.id).
            absurd (below_itself l.id q l refl (ground arith) below) in
        completion_of-Decides (is_complete (fuel_for (some c)) s (some c)) l [] _ (
          missing_prerequisites-Reports c.lessons (fuel_for (some c)) _
            (is_complete-Settles (fuel_for (some c))) rank cert
            (is_complete-Answers (fuel_for (some c))) (rank l.id) l.prerequisites (l.id ∷ [])
            (omega (arith, unseen-le (l.id ∷ []) c.lessons)) first low)

    map_over-eq-cert : (ids : List String) → map_over s c ids ≡ ok (map (λ id. (id, cert id)) ids)
    unfolding map_over
    map_over-eq-cert [] = refl
    map_over-eq-cert (id ∷ ids) =
        let (a, e) =
          Settles-ok id [] _ (
            is_complete-Settles (fuel_for (some c)) id []
              (omega (arith, unseen-le [] c.lessons))) in
        let answer : a.0 ≡ cert id = rw e at (
          is_complete-Answers (fuel_for (some c)) id [] (omega (arith, unseen-le [] c.lessons))
            (nothing_seen _)) in
        rw (e, map_over-eq-cert ids, answer)

    pub completion_map-eq-cert :
        completion_map s c ≡ ok (map (λ id. (id, cert id)) c.ordered_lesson_ids)
    unfolding completion_map
    completion_map-eq-cert = map_over-eq-cert c.ordered_lesson_ids

  -- Any lesson, whatever its prerequisites: for records without gaps its completion raises nothing.
  pub lesson_completion_total :
      (l : Lesson) → (b : Bool) × Decides b (lesson_completion s l (some c))
  unfolding lesson_completion
  lesson_completion_total l =
      let call = is_complete (fuel_for (some c)) s (some c) in
      let (b, report) = Reports-of (missing_prerequisites call l.prerequisites (l.id ∷ [])) (
        missing_prerequisites-Succeeds c.lessons (fuel_for (some c)) call
          (is_complete-Settles (fuel_for (some c))) l.prerequisites (l.id ∷ [])
          (omega (arith, unseen-le (l.id ∷ []) c.lessons))) in
      (_, completion_of-Decides call l [] b report)
