-- ===== src/Progress/Queries.antt =====
-- The queries of learning/server/progress.py: `concept_mastery`, `interview_weights`, `lesson_status`.
-- Where the code computes with floats the model has exact fractions, and the OverflowError of an
-- integer that is too large for a float.
pub mod Weights
use flight_test_lab.Prelude.{
  ℕ, ◌+◌, ◌*◌, ◌^◌, String, Bool, ◌&&◌, Option, none, some, List, [], ◌∷◌, ◌++◌, ltb, ◌==◌,
  if◌then◌else◌,
}
use Prim.Native.Nat.{min}
use flight_test_lab.Prelude.Int.{float_limit}
use flight_test_lab.Dict
use flight_test_lab.Dict.{Dict, or_else}
use flight_test_lab.Result.{Result, ok, err, ◌>>=◌}
use flight_test_lab.Progress.{
  Slot, absent, null, value, State, Raised, key_error, type_error, overflow_error,
}
use flight_test_lab.Progress.Store.{new_concept, new_question}
use flight_test_lab.Curriculum.{Lesson}

pub record Fraction : Type 0 where
  pub num : ℕ
  pub den : ℕ

abbrev pub plus : Fraction → Fraction → Fraction
plus a b = record { num = a.num * b.den + b.num * a.den; den = a.den * b.den }

-- One entry of the answer of `concept_mastery`.
pub record Mastery : Type 0 where
  pub correct : ℕ
  pub incorrect : ℕ
  pub score : Option Fraction
  pub weak : Bool

-- `int(entry.get(key, 0))`
abbrev pub as_count : Slot ℕ → Result Raised ℕ
as_count absent = ok 0
as_count null = err type_error
as_count (value n) = ok n

unfoldable pub mastery_of : ℕ → ℕ → Mastery
mastery_of correct incorrect = record {
  correct = correct;
  incorrect = incorrect;
  score =
      if correct + incorrect == 0
      then none
      else some (record { num = correct; den = correct + incorrect });
  weak = ltb 0 (correct + incorrect) && ltb (10 * correct) (7 * (correct + incorrect));
}

-- One round of the loop over the concepts.
unfoldable pub concept_row : State → String → Result Raised Mastery
concept_row s concept = do
  correct ← as_count (or_else (Dict.get concept s.concepts) new_concept).correct
  incorrect ← as_count (or_else (Dict.get concept s.concepts) new_concept).incorrect
  ok (mastery_of correct incorrect)

unfoldable pub mastery_from : State → Dict Mastery → List String → Result Raised (Dict Mastery)
mastery_from s rows [] = ok rows
mastery_from s rows (c ∷ cs) = do row ← concept_row s c; mastery_from s (Dict.put c row rows) cs

abbrev pub concept_mastery : State → List String → Result Raised (Dict Mastery)
concept_mastery s concepts = mastery_from s [] concepts

abbrev pub half : Fraction
half = record { num = 1; den = 2 }

abbrev pub one : Fraction
one = record { num = 1; den = 1 }

abbrev pub score_of : Option Mastery → Option Fraction
score_of none = none
score_of (some m) = m.score

-- What a concept adds: a half unseen, else the share of wrong answers, `1.0 - score`.
abbrev pub weight_of_score : Option Fraction → ℕ → Fraction
weight_of_score none incorrect = half
weight_of_score (some f) incorrect = record { num = incorrect; den = f.den }

abbrev pub misses : Option Mastery → ℕ
misses none = 0
misses (some m) = m.incorrect

unfoldable pub concept_weight : Dict Mastery → String → Fraction
concept_weight mastery c =
    weight_of_score (score_of (Dict.get c mastery)) (misses (Dict.get c mastery))

unfoldable pub add_concepts : Dict Mastery → Fraction → List String → Fraction
add_concepts mastery w [] = w
add_concepts mastery w (c ∷ cs) = add_concepts mastery (plus w (concept_weight mastery c)) cs

-- `max(weight, MIN_INTERVIEW_WEIGHT)`
abbrev pub at_least_floor : Fraction → Fraction
at_least_floor w = if ltb (20 * w.num) w.den then record { num = 1; den = 20 } else w

-- The weight of a question that was answered wrongly so often and has such a streak.
unfoldable pub weight_for : Dict Mastery → List String → ℕ → ℕ → Fraction
unfolding add_concepts
weight_for mastery concepts wrong streak =
    let base = plus (add_concepts mastery one concepts) (record { num = 2 * wrong; den = 1 }) in
    at_least_floor (record { num = base.num; den = base.den * 2 ^ min streak 6 })

-- `float(n)`
abbrev pub as_float : ℕ → Result Raised ℕ
as_float n = if ltb n float_limit then ok n else err overflow_error

-- The weight of one question, from its history.
unfoldable pub question_weight :
    State → Dict Mastery → String → List String → Result Raised Fraction
question_weight s mastery id concepts = do
  wrong ← as_count (or_else (Dict.get id s.interview) new_question).incorrect
  misses ← as_float wrong
  streak ← as_count (or_else (Dict.get id s.interview) new_question).streak
  ok (weight_for mastery concepts misses streak)

unfoldable pub weights_from :
    State → Dict Mastery → Dict (List String) → Result Raised (Dict Fraction)
weights_from s mastery [] = ok []
weights_from s mastery ((id, concepts) ∷ questions) = do
  w ← question_weight s mastery id concepts
  rest ← weights_from s mastery questions
  ok ((id, w) ∷ rest)

unfoldable pub all_concepts : Dict (List String) → List String
all_concepts [] = []
all_concepts ((id, concepts) ∷ questions) = concepts ++ all_concepts questions

unfoldable pub interview_weights : State → Dict (List String) → Result Raised (Dict Fraction)
unfolding all_concepts
interview_weights s questions = do
  mastery ← concept_mastery s (all_concepts questions)
  weights_from s mastery questions

-- `str(record["status"])`; `str(None)` is the text `None`.
abbrev pub status_text : Slot String → Result Raised String
status_text absent = err key_error
status_text null = ok "None"
status_text (value s) = ok s

unfoldable pub lesson_status : State → Lesson → Result Raised String
lesson_status s lesson = elim (Dict.get lesson.id s.lessons) [
  | none ↦ ok "not_started"
  | some r ↦ status_text r.status
]
