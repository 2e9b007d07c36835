-- ===== src/Progress/Loading/Typed.antt =====
-- The records that the loader of learning/server/progress.py admits are the ones that can be read into
-- the typed records of the store, where a field is absent, null or a value.
use flight_test_lab.Prelude.{
  ℕ, String, ◌≡◌, refl, Bool, ◌&&◌, Option, none, some, List, [], ◌∷◌, arith, leb, all,
  if◌then◌else◌,
}
use flight_test_lab.Prelude.Int.{pos, negsuc}
use flight_test_lab.Dict.{Dict, is_some}
use flight_test_lab.Json.{
  Json, Items, Fields, bool, int, str, arr, obj, end, field, get, member, or_null,
}
use flight_test_lab.Json.Loads.{bind}
use flight_test_lab.Progress.{
  Slot, absent, value, Outcome, LessonRecord, ConceptEntry, InterviewEntry,
}
use flight_test_lab.Progress.Loading.{
  max_counter, valid_count, all_strings, valid_strings, valid_text, valid_flag, valid_outcome,
  valid_outcomes, valid_validations, record_is_valid,
}

abbrev pub read_count : Option Json → Option (Slot ℕ)
read_count none = some absent
read_count (some Json.null) = some Slot.null
read_count (some (int (pos n))) = if leb n max_counter then some (value n) else none
read_count (some _) = none

abbrev pub read_text : Option Json → Option (Slot String)
read_text none = some absent
read_text (some Json.null) = some Slot.null
read_text (some (str s)) = some (value s)
read_text (some _) = none

abbrev pub read_flag : Option Json → Option (Slot Bool)
read_flag none = some absent
read_flag (some Json.null) = some Slot.null
read_flag (some (bool b)) = some (value b)
read_flag (some _) = none

unfoldable pub read_items : Items → Option (List String)
read_items Items.nil = some []
read_items (Items.cons (str s) vs) = bind (read_items vs) (λ ss. some (s ∷ ss))
read_items (Items.cons _ vs) = none

abbrev pub read_strings : Option Json → Option (Slot (List String))
read_strings none = some absent
read_strings (some Json.null) = some Slot.null
read_strings (some (arr vs)) = bind (read_items vs) (λ ss. some (value ss))
read_strings (some _) = none

abbrev pub read_outcome : Json → Option Outcome
read_outcome (obj o) =
    bind (read_flag (member "passed" o))
      λ passed. bind (read_text (member "at" o)) (λ at. some (record { passed = passed; at = at }))
read_outcome _ = none

unfoldable pub read_outcomes : Fields → Option (Dict Outcome)
read_outcomes end = some []
read_outcomes (field k o fs) =
    bind (read_outcome o) (λ outcome. bind (read_outcomes fs) (λ rest. some ((k, outcome) ∷ rest)))

abbrev pub read_validations : Option Json → Option (Slot (Dict Outcome))
read_validations none = some absent
read_validations (some Json.null) = some Slot.null
read_validations (some (obj fs)) = bind (read_outcomes fs) (λ vs. some (value vs))
read_validations (some _) = none

-- The fields of a lesson's record, in the groups in which the loader tests them.
abbrev pub read_counts : Fields → Option (Slot ℕ × Slot ℕ × Slot ℕ × Slot ℕ)
read_counts r = bind (read_count (member "attempts" r)) λ attempts.
    bind (read_count (member "hints_used" r)) λ hints.
      bind (read_count (member "quiz_attempts" r)) λ quizzes.
        bind (read_count (member "interview_baseline" r))
          λ baseline. some (attempts, hints, quizzes, baseline)

abbrev pub read_lists :
    Fields → Option (Slot (List String) × Slot (List String) × Slot (List String))
read_lists r = bind (read_strings (member "steps_done" r)) λ steps.
    bind (read_strings (member "quiz_correct" r)) λ correct.
      bind (read_strings (member "explain_done" r)) (λ explained. some (steps, correct, explained))

-- A lesson's record, as the store reads it.
abbrev pub read_lesson : Fields → Option LessonRecord
read_lesson r = bind (read_counts r) λ counts. bind (read_lists r) λ lists.
    bind (read_text (member "status" r)) λ status.
      bind (read_validations (member "validations" r)) λ validations. some (record {
        status = status;
        steps_done = lists.0;
        validations = validations;
        quiz_correct = lists.1;
        quiz_attempts = counts.2;
        explain_done = lists.2;
        attempts = counts.0;
        hints_used = counts.1;
        interview_baseline = counts.3;
        started_at = member "started_at" r;
        completed_at = member "completed_at" r;
      })

count_lem : (o : Option Json) → valid_count (or_null o) ≡ is_some (read_count o)
count_lem none = refl
count_lem (some Json.null) = refl
count_lem (some (int (pos n))) = ground arith
count_lem (some (int (negsuc n))) = refl
count_lem (some _) = refl

text_lem : (o : Option Json) → valid_text (or_null o) ≡ is_some (read_text o)
text_lem none = refl
text_lem (some Json.null) = refl
text_lem (some _) = refl

flag_lem : (o : Option Json) → valid_flag (or_null o) ≡ is_some (read_flag o)
flag_lem none = refl
flag_lem (some Json.null) = refl
flag_lem (some _) = refl

all_strings_lem : (vs : Items) → all_strings vs ≡ is_some (read_items vs)
unfolding all_strings read_items
all_strings_lem Items.nil = refl
all_strings_lem (Items.cons (str s) vs) = ground (arith, all_strings_lem vs)
all_strings_lem (Items.cons _ vs) = refl

strings_lem : (o : Option Json) → valid_strings (or_null o) ≡ is_some (read_strings o)
strings_lem none = refl
strings_lem (some Json.null) = refl
strings_lem (some (arr vs)) = ground (arith, all_strings_lem vs)
strings_lem (some _) = refl

outcome_lem : (v : Json) → valid_outcome v ≡ is_some (read_outcome v)
outcome_lem (obj o) = ground (arith, flag_lem (member "passed" o), text_lem (member "at" o))
outcome_lem Json.null = refl
outcome_lem _ = refl

outcomes_lem : (fs : Fields) → valid_outcomes fs ≡ is_some (read_outcomes fs)
unfolding valid_outcomes read_outcomes
outcomes_lem end = refl
outcomes_lem (field k o fs) = ground (arith, outcome_lem o, outcomes_lem fs)

validations_lem : (o : Option Json) → valid_validations (or_null o) ≡ is_some (read_validations o)
validations_lem none = refl
validations_lem (some Json.null) = refl
validations_lem (some (obj fs)) = ground (arith, outcomes_lem fs)
validations_lem (some _) = refl

abbrev pub read_concept : Fields → Option ConceptEntry
read_concept r = bind (read_count (member "correct" r)) λ correct.
    bind (read_count (member "incorrect" r)) λ incorrect.
      some (record { correct = correct; incorrect = incorrect; last_seen = member "last_seen" r })

abbrev pub read_entry : Fields → Option InterviewEntry
read_entry r = bind (read_count (member "correct" r)) λ correct.
    bind (read_count (member "incorrect" r)) λ incorrect.
      bind (read_count (member "streak" r))
        λ streak. some (record { correct = correct; incorrect = incorrect; streak = streak })

counts_lem :
    (r : Fields)
    → all
        (λ k. valid_count (get k r))
        ("attempts" ∷ "hints_used" ∷ "quiz_attempts" ∷ "interview_baseline" ∷ [])
      ≡ is_some (read_counts r)
counts_lem r = ground (
  arith,
  count_lem (member "attempts" r),
  count_lem (member "hints_used" r),
  count_lem (member "quiz_attempts" r),
  count_lem (member "interview_baseline" r),
)

lists_lem :
    (r : Fields)
    → all (λ k. valid_strings (get k r)) ("steps_done" ∷ "quiz_correct" ∷ "explain_done" ∷ [])
      ≡ is_some (read_lists r)
lists_lem r = ground (
  arith,
  strings_lem (member "steps_done" r),
  strings_lem (member "quiz_correct" r),
  strings_lem (member "explain_done" r),
)

-- Four readers in a row succeed exactly if each does.
four :
    {A B C D E : Type 0} (a : Option A) (b : Option B) (c : Option C) (d : Option D)
    (f : A → B → C → D → E)
    → (is_some a && is_some b && is_some c && is_some d)
      ≡ is_some (bind a λ x. bind b λ y. bind c λ z. bind d λ w. some (f x y z w))
four none b c d f = refl
four (some x) none c d f = refl
four (some x) (some y) none d f = refl
four (some x) (some y) (some z) none f = refl
four (some x) (some y) (some z) (some w) f = refl

-- The loader admits a record of a lesson, a concept or a question exactly if each field that the store
-- reads can be read at its type, counters from 0 to a million, where a missing or null field is none.
pub record_is_valid-eq-is_some :
    (r : Fields)
    → (record_is_valid "lessons" r ≡ is_some (read_lesson r))
      × (record_is_valid "concepts" r ≡ is_some (read_concept r))
      × (record_is_valid "interview" r ≡ is_some (read_entry r))
unfolding record_is_valid
record_is_valid-eq-is_some r = (
  rw
      (
        counts_lem r,
        lists_lem r,
        text_lem (member "status" r),
        validations_lem (member "validations" r),
      )
      (four (read_counts r) (read_lists r) (read_text (member "status" r))
        (read_validations (member "validations" r)) _),
  ground (arith, count_lem (member "correct" r), count_lem (member "incorrect" r)),
  ground (
    arith,
    count_lem (member "correct" r),
    count_lem (member "incorrect" r),
    count_lem (member "streak" r),
  ),
)
