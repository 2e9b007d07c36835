-- ===== src/Progress/Completion/Gates.antt =====
-- The gates of one record without an exception: what they ask, as a test, for records whose fields
-- all have values.
use flight_test_lab.Prelude.{
  String, ◌≡◌, refl, Bool, ◌&&◌, List, [], ◌∷◌, ◌++◌, arith, contains, is_empty, all,
}
use flight_test_lab.Dict.{Dict}
use flight_test_lab.Json.{Fields}
use flight_test_lab.Result.{Result, ok, err, ◌>>=◌}
use flight_test_lab.Curriculum.{
  Lesson, block_id, mandatory_validators, required_quiz_ids, required_explain_ids,
}
use flight_test_lab.Progress.{Slot, absent, null, value, Outcome, LessonRecord, Raised, key_error}
use flight_test_lab.Progress.Record.{is_true, previous_passed}
use flight_test_lab.Progress.Completion.{
  Missing, missing_validations, missing_ids, missing_gates, quiz, explain,
}

abbrev pub HasValue {ℓ} : {A : Type ℓ} → Slot A → Type 0
HasValue absent = ⊥
HasValue null = ⊥
HasValue (value a) = Unit

-- Every field that the code reads by its key has a value.
pub record IsFull (r : LessonRecord) : Type 0 where
  pub status : HasValue r.status
  pub steps_done : HasValue r.steps_done
  pub validations : HasValue r.validations
  pub quiz_correct : HasValue r.quiz_correct
  pub quiz_attempts : HasValue r.quiz_attempts
  pub explain_done : HasValue r.explain_done
  pub attempts : HasValue r.attempts
  pub hints_used : HasValue r.hints_used
  pub interview_baseline : HasValue r.interview_baseline

abbrev pub or_nothing {ℓ} : {A : Type ℓ} → Slot (List A) → List A
or_nothing (value xs) = xs
or_nothing _ = []

-- The check of the block has passed, by the record.
abbrev pub has_passed : Slot (Dict Outcome) → Fields → Bool
has_passed vs b = is_true (previous_passed (block_id b) (or_nothing vs))

-- What a lesson asks of its own record: every mandatory check passed, every quiz block answered
-- correctly, every explain block answered.
unfoldable pub gates_hold : LessonRecord → Lesson → Bool
gates_hold r lesson =
    all (has_passed r.validations) (mandatory_validators lesson)
    && all (λ id. contains id (or_nothing r.quiz_correct)) (required_quiz_ids lesson)
    && all (λ id. contains id (or_nothing r.explain_done)) (required_explain_ids lesson)

-- A list of missing requirements that is empty exactly if the test holds.
abbrev pub Reports : Bool → Result Raised (List Missing) → Type 0
Reports b (ok ms) = is_empty ms ≡ b
Reports b (err e) = ⊥

missing_validations-Reports :
    (vs : Slot (Dict Outcome)) (bs : List Fields)
    → HasValue vs
    → Reports (all (has_passed vs) bs) (missing_validations vs bs)
unfolding missing_validations
missing_validations-Reports vs [] h = refl
missing_validations-Reports (value vs) (b ∷ bs) h =
    ground (arith, missing_validations-Reports (value vs) bs tt)
missing_validations-Reports absent (b ∷ bs) h = absurd h
missing_validations-Reports null (b ∷ bs) h = absurd h

missing_ids-Reports :
    (message : String → Missing) (xs : Slot (List String)) (ids : List String)
    → HasValue xs
    → Reports (all (λ id. contains id (or_nothing xs)) ids) (missing_ids message xs ids)
unfolding missing_ids
missing_ids-Reports message xs [] h = refl
missing_ids-Reports message (value xs) (id ∷ ids) h =
    ground (arith, missing_ids-Reports message (value xs) ids tt)
missing_ids-Reports message absent (id ∷ ids) h = absurd h
missing_ids-Reports message null (id ∷ ids) h = absurd h

pub is_empty-append : (xs ys : List Missing) → is_empty (xs ++ ys) ≡ (is_empty xs && is_empty ys)
is_empty-append [] ys = refl
is_empty-append (x ∷ xs) ys = refl

joined-Reports :
    (a b c : Bool) (x y z : Result Raised (List Missing))
    → Reports a x
    → Reports b y
    → Reports c z
    → Reports (a && b && c) (x >>= λ u. y >>= λ v. z >>= λ w. ok (u ++ v ++ w))
joined-Reports a b c (ok u) (ok v) (ok w) f g h =
    rw (is_empty-append (u ++ v) w, is_empty-append u v, f, g, h)
joined-Reports a b c (ok u) (ok v) (err e) f g h = absurd h
joined-Reports a b c (ok u) (err e) z f g h = absurd g
joined-Reports a b c (err e) y z f g h = absurd f

-- The read of `validations` before its loop raises nothing where there is a value.
read_validations :
    (vs : Slot (Dict Outcome)) (b : Bool) (go : Slot (Dict Outcome) → Result Raised (List Missing))
    → HasValue vs
    → Reports b (go vs)
    → Reports b (
        elim vs as (λ _. Result Raised (Slot (Dict Outcome))) [ absent ↦ err key_error | _ ↦ ok vs ]
        >>= go)
read_validations absent b go h g = absurd h
read_validations null b go h g = absurd h
read_validations (value vs) b go h g = g

-- Of a full record the gates report exactly what is missing.
pub missing_gates-Reports :
    (r : LessonRecord) (lesson : Lesson)
    → IsFull r
    → Reports (gates_hold r lesson) (missing_gates r lesson)
unfolding missing_gates gates_hold
missing_gates-Reports r lesson full =
    read_validations r.validations (gates_hold r lesson) _ full.validations (
      joined-Reports _ _ _ _ _ _
        (missing_validations-Reports r.validations (mandatory_validators lesson) full.validations)
        (missing_ids-Reports quiz r.quiz_correct (required_quiz_ids lesson) full.quiz_correct)
        (missing_ids-Reports explain r.explain_done (required_explain_ids lesson)
          full.explain_done))
