-- ===== src/Progress/Queries/Weights.antt =====
-- The weights that `interview_weights` of learning/server/progress.py gives the questions.
use flight_test_lab.Prelude.{
  ◌≡◌, refl, ◌<◌, zero, suc, Option, none, some, Option-cases, inl, inr, ℕ, ◌≤◌, ◌*◌, ◌^◌, String,
  List, [], ◌∷◌, map, arith,
}
use Prim.Native.Nat.{min}
use flight_test_lab.Dict
use flight_test_lab.Dict.{Dict, AllValues, AllValues-get, AllValues-put, or_else}
use flight_test_lab.Result.{ok, ok-injective}
use flight_test_lab.Progress.{Slot, absent, null, value, InterviewEntry, State}
use flight_test_lab.Progress.Loading.{max_counter}
use flight_test_lab.Progress.Completion.Gates.{HasValue}
use flight_test_lab.Progress.Store.{new_concept, new_question}
use flight_test_lab.Progress.Store.Safety.{IsComplete, IsFullConcept, IsFullEntry}
use flight_test_lab.Progress.Store.Methods.{default_full}
use flight_test_lab.Progress.Queries.{
  Fraction, plus, Mastery, as_count, mastery_of, concept_row, mastery_from, add_concepts,
  concept_weight, weight_of_score, one, at_least_floor, question_weight, as_float, weight_for,
  weights_from, all_concepts, interview_weights,
}

as_count-value : (n : Slot ℕ) → HasValue n → (m : ℕ) × (as_count n ≡ ok m)
as_count-value (value m) h = (m, refl)
as_count-value absent h = absurd h
as_count-value null h = absurd h

product_positive : (a b : ℕ) → 0 < a → 0 < b → 0 < a * b
product_positive zero b h k = absurd (omega (arith, h))
product_positive (suc a) zero h k = absurd (omega (arith, k))
product_positive (suc a) (suc b) h k = omega arith

power_positive : (n : ℕ) → 0 < 2 ^ n
power_positive zero = omega arith
power_positive (suc n) = omega (arith, power_positive n)

-- A score is a share of a number that is not 0.
abbrev IsScored : Mastery → Type 0
IsScored m = elim m.score [ none ↦ Unit | some f ↦ 0 < f.den ]

mastery_of-IsScored : (right wrong : ℕ) → IsScored (mastery_of right wrong)
unfolding mastery_of
mastery_of-IsScored right wrong = ground arith

concept_row-value :
    (s : State) (concept : String)
    → IsComplete s
    → (row : Mastery) × (concept_row s concept ≡ ok row) × IsScored row
unfolding concept_row
concept_row-value s concept h =
    let full =
      default_full IsFullConcept concept s.concepts new_concept h.concepts
        (record { correct = tt; incorrect = tt }) in
    let (right, e) = as_count-value _ full.correct in
    let (wrong, f) = as_count-value _ full.incorrect in
    (mastery_of right wrong, rw (e, f), mastery_of-IsScored right wrong)

mastery_from-value :
    (s : State) (rows : Dict Mastery) (concepts : List String)
    → IsComplete s
    → AllValues IsScored rows
    → (all_rows : Dict Mastery) × (mastery_from s rows concepts ≡ ok all_rows)
      × AllValues IsScored all_rows
unfolding mastery_from
mastery_from-value s rows [] h scored = (rows, refl, scored)
mastery_from-value s rows (c ∷ cs) h scored =
    let (row, e, row_scored) = concept_row-value s c h in
    let (all_rows, f, all_scored) =
      mastery_from-value s (Dict.put c row rows) cs h
        (AllValues-put IsScored c row rows scored row_scored) in
    (all_rows, rw (e, f), all_scored)

scored_positive :
    (score : Option Fraction) (wrong : ℕ)
    → (elim score as (λ _. Type 0) [ none ↦ Unit | some f ↦ 0 < f.den ])
    → 0 < (weight_of_score score wrong).den
scored_positive none wrong h = omega arith
scored_positive (some f) wrong h = h

concept_weight-positive :
    (mastery : Dict Mastery) (c : String)
    → AllValues IsScored mastery
    → 0 < (concept_weight mastery c).den
unfolding concept_weight
concept_weight-positive mastery c h = elim (Option-cases (Dict.get c mastery)) [
  | inl unseen ↦ rw (unseen, concept_weight) (ground arith)
  | inr (m, seen) ↦
      rw (seen, concept_weight)
        (scored_positive m.score m.incorrect (AllValues-get IsScored c mastery h seen))
]

add_concepts-positive :
    (mastery : Dict Mastery) (w : Fraction) (concepts : List String)
    → AllValues IsScored mastery
    → 0 < w.den
    → 0 < (add_concepts mastery w concepts).den
unfolding add_concepts
add_concepts-positive mastery w [] h p = p
add_concepts-positive mastery w (c ∷ cs) h p =
    add_concepts-positive mastery (plus w (concept_weight mastery c)) cs h
      (product_positive w.den _ p (concept_weight-positive mastery c h))

-- A number that is at least a twentieth.
abbrev pub IsKept : Fraction → Type 0
IsKept w = (0 < w.den) × (w.den ≤ 20 * w.num)

at_least_floor-IsKept : (w : Fraction) → 0 < w.den → IsKept (at_least_floor w)
at_least_floor-IsKept w p = ground arith

weight_for-IsKept :
    (mastery : Dict Mastery) (concepts : List String) (wrong streak : ℕ)
    → AllValues IsScored mastery
    → IsKept (weight_for mastery concepts wrong streak)
unfolding weight_for
weight_for-IsKept mastery concepts wrong streak scored =
    let sum = add_concepts mastery one concepts in
    let base = plus sum (record { num = 2 * wrong; den = 1 }) in
    let positive = add_concepts-positive mastery one concepts scored (omega arith) in
    at_least_floor-IsKept (record { num = base.num; den = base.den * 2 ^ min streak 6 })
      (product_positive base.den _ (product_positive sum.den 1 positive (omega arith))
        (power_positive (min streak 6)))

-- A counter that the loader of the state lets through.
abbrev pub IsCounter : Slot ℕ → Type 0
IsCounter (value n) = n ≤ max_counter
IsCounter absent = Unit
IsCounter null = Unit

abbrev pub HasCounter : InterviewEntry → Type 0
HasCounter e = IsCounter e.incorrect

count-IsCounter : (n : Slot ℕ) (m : ℕ) → IsCounter n → as_count n ≡ ok m → m ≤ max_counter
count-IsCounter (value k) m h e = let same : k ≡ m = ok-injective e in rw (← same) h
count-IsCounter absent m h e = omega (arith, ok-injective e)
count-IsCounter null m h e = cc

as_float-counter : (n : ℕ) → n ≤ max_counter → as_float n ≡ ok n
as_float-counter n h = ground arith

question_weight-IsKept :
    (s : State) (mastery : Dict Mastery) (id : String) (concepts : List String)
    → IsComplete s
    → AllValues HasCounter s.interview
    → AllValues IsScored mastery
    → (w : Fraction) × (question_weight s mastery id concepts ≡ ok w) × IsKept w
unfolding question_weight
question_weight-IsKept s mastery id concepts h bounded scored =
    let full =
      default_full IsFullEntry id s.interview new_question h.interview
        (record { correct = tt; incorrect = tt; streak = tt }) in
    let (wrong, e) = as_count-value _ full.incorrect in
    let (streak, f) = as_count-value _ full.streak in
    let small =
      count-IsCounter _ wrong
        (default_full HasCounter id s.interview new_question bounded (omega arith)) e in
    (
      weight_for mastery concepts wrong streak,
      rw (e, as_float-counter wrong small, f),
      weight_for-IsKept mastery concepts wrong streak scored,
    )

-- The questions that are weighed.
abbrev pub names {ℓ} : {V : Type ℓ} → Dict V → List String
names d = map (λ entry. entry.0) d

weights_from-IsKept :
    (s : State) (mastery : Dict Mastery) (questions : Dict (List String))
    → IsComplete s
    → AllValues HasCounter s.interview
    → AllValues IsScored mastery
    → (ws : Dict Fraction) × (weights_from s mastery questions ≡ ok ws)
      × (names ws ≡ names questions)
      × AllValues IsKept ws
unfolding weights_from
weights_from-IsKept s mastery [] h bounded scored = ([], refl, refl, tt)
weights_from-IsKept s mastery ((id, concepts) ∷ questions) h bounded scored =
    let (w, e, kept) = question_weight-IsKept s mastery id concepts h bounded scored in
    let (ws, f, same, all_kept) = weights_from-IsKept s mastery questions h bounded scored in
    ((id, w) ∷ ws, rw (e, f), rw same, (kept, all_kept))

-- With complete records and no question missed more often than the loader lets through, a million
-- times, every question is weighed, in order, and none is dropped from the draw: however often it was
-- answered correctly, its weight stays at least a twentieth.
pub interview_weights-IsKept :
    (s : State) (questions : Dict (List String))
    → IsComplete s
    → AllValues HasCounter s.interview
    → (ws : Dict Fraction) × (interview_weights s questions ≡ ok ws)
      × (names ws ≡ names questions)
      × AllValues IsKept ws
unfolding interview_weights all_concepts
interview_weights-IsKept s questions h bounded =
    let (mastery, e, scored) = mastery_from-value s [] (all_concepts questions) h tt in
    let (ws, f, same, kept) = weights_from-IsKept s mastery questions h bounded scored in
    (ws, rw (e, f), same, kept)
