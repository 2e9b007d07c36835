-- ===== src/Progress/Record.antt =====
-- The records of learning/server/progress.py under the statements of `ProgressStore`'s methods: each
-- function is the change of one record, with the exception that it ends in.
use flight_test_lab.Prelude.{
  ℕ, ◌+◌, String, Bool, true, false, not, ◌&&◌, Option, none, some, List, [], ◌∷◌, ◌++◌, max,
  str_eq, contains, ◌==◌, if◌then◌else◌,
}
use flight_test_lab.Dict
use flight_test_lab.Dict.{Dict}
use flight_test_lab.Json.{Json}
use flight_test_lab.Result.{Result, ok, err}
use flight_test_lab.Progress.{
  Slot, absent, null, value, Outcome, LessonRecord, ConceptEntry, InterviewEntry, Raised, key_error,
  type_error,
}

-- How a change ends that answers nothing.
abbrev pub Done : Type 0
Done = Result Raised (Unit {0})

-- `record.setdefault(key, default)`
abbrev pub set_default {ℓ} : {A : Type ℓ} → Slot A → Slot A → Slot A
set_default absent d = d
set_default null d = null
set_default (value a) d = value a

abbrev pub set_default_json : Option Json → Option Json
set_default_json none = some Json.null
set_default_json (some j) = some j

-- The loop over the template in `_lesson_record_locked`.
unfoldable pub fill : LessonRecord → LessonRecord
fill r = record {
  status = set_default r.status (value "not_started");
  steps_done = set_default r.steps_done (value []);
  validations = set_default r.validations (value []);
  quiz_correct = set_default r.quiz_correct (value []);
  quiz_attempts = set_default r.quiz_attempts (value 0);
  explain_done = set_default r.explain_done (value []);
  attempts = set_default r.attempts (value 0);
  hints_used = set_default r.hints_used (value 0);
  interview_baseline = set_default r.interview_baseline (value 0);
  started_at = set_default_json r.started_at;
  completed_at = set_default_json r.completed_at;
}

-- `value += 1`
abbrev pub bump : Slot ℕ → Result Raised (Slot ℕ)
bump absent = err key_error
bump null = err type_error
bump (value n) = ok (value (n + 1))

-- A value read by `record[key]` and used as its type.
abbrev pub have {ℓ} : {A : Type ℓ} → Slot A → Result Raised A
have absent = err key_error
have null = err type_error
have (value a) = ok a

-- `if block_id not in xs: xs.append(block_id)`
abbrev pub add_once : String → Slot (List String) → Result Raised (Slot (List String))
add_once block_id absent = err key_error
add_once block_id null = err type_error
add_once block_id (value xs) = ok (value (if contains block_id xs then xs else xs ++ block_id ∷ []))

-- A field that a change which raised leaves alone.
abbrev pub set_or_raise {ℓ} :
    {A : Type ℓ} {R : Type 0} → R → (Slot A → R) → Result Raised (Slot A) → Done × R
set_or_raise r write (ok v) = (ok tt, write v)
set_or_raise r write (err e) = (err e, r)

-- The counts that `_interview_total_locked` adds up.
abbrev pub count_of : Slot ℕ → ℕ
count_of (value n) = n
count_of _ = 0

abbrev pub is_none : Option Json → Bool
is_none (some Json.null) = true
is_none none = true
is_none _ = false

abbrev pub has_status : String → LessonRecord → Bool
has_status s r = elim r.status [ value t ↦ str_eq t s | _ ↦ false ]

-- The two tests of `mark_started`, before the attempt is counted.
abbrev pub begun : String → ℕ → LessonRecord → LessonRecord
begun now total r =
    if is_none r.started_at
    then record r { started_at = some (Json.str now); interview_baseline = value total }
    else r

abbrev pub in_progress : LessonRecord → LessonRecord
in_progress r = if has_status "not_started" r then record r { status = value "in_progress" } else r

abbrev pub bump_concept : Bool → ConceptEntry → Done × ConceptEntry
bump_concept true e = set_or_raise e (λ v. record e { correct = v }) (bump e.correct)
bump_concept false e = set_or_raise e (λ v. record e { incorrect = v }) (bump e.incorrect)

abbrev pub seen_at : String → Done × ConceptEntry → Done × ConceptEntry
seen_at now (ok u, e) = (ok u, record e { last_seen = some (Json.str now) })
seen_at now (err x, e) = (err x, e)

-- `previous`, the outcome that a block's check has in the record
abbrev pub previous_passed : String → Dict Outcome → Slot Bool
previous_passed block_id vs = elim (Dict.get block_id vs) [ none ↦ absent | some o ↦ o.passed ]

-- `slot is True`
abbrev pub is_true : Slot Bool → Bool
is_true (value b) = b
is_true _ = false

-- `record["validations"][block_id] = {"passed": passed, "at": now}`
abbrev pub write_outcome : String → String → Bool → LessonRecord → Dict Outcome → LessonRecord
write_outcome now block_id passed r vs = record r {
  validations = value (Dict.put block_id (record { passed = value passed; at = value now }) vs);
}

-- The first part of `record_validation`: whether the pass that was seen before stands, and otherwise
-- the outcome is written.
abbrev pub observe :
    String → String → Bool → Bool → LessonRecord → Result Raised Bool × LessonRecord
observe now block_id passed historical r = elim (have r.validations) [
  | err e ↦ (err e, r)
  | ok vs ↦
      if historical && is_true (previous_passed block_id vs)
      then (ok true, r)
      else (ok false, write_outcome now block_id passed r vs)
]

-- A mandatory check that fails takes the completion back.
abbrev pub revoked : Bool → Bool → LessonRecord → LessonRecord
revoked passed mandatory r =
    if not passed && mandatory && has_status "complete" r
    then record r { status = value "in_progress"; completed_at = some Json.null }
    else r

-- `record["quiz_attempts"] += 1`, then the block is added if the answer was correct
abbrev pub quiz_answer : String → Bool → LessonRecord → Done × LessonRecord
quiz_answer block_id correct r = elim (bump r.quiz_attempts) [
  | err e ↦ (err e, r)
  | ok n ↦
      let r' = record r { quiz_attempts = n } in
      if correct
      then set_or_raise r' (λ v. record r' { quiz_correct = v }) (add_once block_id r'.quiz_correct)
      else (ok tt, r')
]

abbrev pub explain_answer : String → Bool → LessonRecord → Done × LessonRecord
explain_answer block_id passed r =
    if passed
    then set_or_raise r (λ v. record r { explain_done = v }) (add_once block_id r.explain_done)
    else (ok tt, r)

-- Whether the high-water mark rose, and the mark.
abbrev pub reveal : ℕ → LessonRecord → Result Raised (Bool × ℕ) × LessonRecord
reveal index r = elim (have r.hints_used) [
  | err e ↦ (err e, r)
  | ok used ↦ (
    ok (not (max used (index + 1) == used), max used (index + 1)),
    record r { hints_used = value (max used (index + 1)) },
  )
]

-- `int(entry.get("streak", 0)) + 1 if correct else 0`
abbrev pub next_streak : Bool → Slot ℕ → Result Raised (Slot ℕ)
next_streak false streak = ok (value 0)
next_streak true absent = ok (value 1)
next_streak true null = err type_error
next_streak true (value n) = ok (value (n + 1))

abbrev pub count_answer : Bool → InterviewEntry → Result Raised InterviewEntry
count_answer true e = elim (bump e.correct) [ ok v ↦ ok (record e { correct = v }) | err x ↦ err x ]
count_answer false e = elim (bump e.incorrect) [
  | ok v ↦ ok (record e { incorrect = v })
  | err x ↦ err x
]

abbrev pub answer_entry : Bool → InterviewEntry → Done × InterviewEntry
answer_entry correct e = elim (count_answer correct e) [
  | err x ↦ (err x, e)
  | ok counted ↦
      set_or_raise counted (λ v. record counted { streak = v }) (next_streak correct counted.streak)
]
