-- ===== src/Progress/Store/Methods.antt =====
-- Every method of `ProgressStore`, from complete records.
use flight_test_lab.Prelude.{
  ℕ, String, Bool, not, ◌&&◌, List, [], ◌∷◌, arith, is_empty, Option-cases, inl, inr,
}
use flight_test_lab.Dict
use flight_test_lab.Dict.{Dict, AllValues, AllValues-get, AllValues-put, or_else}
use flight_test_lab.Result.{Result, ok}
use flight_test_lab.Exec.{when}
use flight_test_lab.Progress.{LessonRecord, ConceptEntry, InterviewEntry, Raised}
use flight_test_lab.Progress.Record.{
  observe, revoked, begun, in_progress, bump, add_once, set_or_raise, quiz_answer, explain_answer,
  reveal, answer_entry, bump_concept, seen_at,
}
use flight_test_lab.Progress.Completion.Gates.{IsFull}
use flight_test_lab.Progress.Store.{
  on_record, mark_started, record_step, on_concept, bump_concepts, record_validation, record_quiz,
  settle, record_explain, record_hint, on_question, record_interview, new_concept, new_question,
}
use flight_test_lab.Progress.Store.Safety.{
  IsFullConcept, IsFullEntry, IsOk, Safe, Safe-bind, Safe-when, Safe-on_record, safe_rules,
}

abbrev FullEnd : {A : Type 0} → Result Raised A × LessonRecord → Type 0
FullEnd (r, rec) = IsOk r × IsFull rec

started_full :
    (now : String) (total : ℕ) (r : LessonRecord)
    → IsFull r
    → FullEnd (
        let r' = in_progress (begun now total r) in
        set_or_raise r' (λ v. record r' { attempts = v }) (bump r'.attempts))
started_full now total r h = ground arith

step_full :
    (block_id : String) (r : LessonRecord)
    → IsFull r
    → FullEnd (set_or_raise r (λ v. record r { steps_done = v }) (add_once block_id r.steps_done))
step_full block_id r h = ground arith

observe_full :
    (now block_id : String) (passed historical : Bool) (r : LessonRecord)
    → IsFull r
    → FullEnd (observe now block_id passed historical r)
observe_full now block_id passed historical r h = ground arith

revoked-IsFull :
    (passed mandatory : Bool) (r : LessonRecord) → IsFull r → IsFull (revoked passed mandatory r)
revoked-IsFull passed mandatory r h = ground arith

quiz_full :
    (block_id : String) (correct : Bool) (r : LessonRecord)
    → IsFull r
    → FullEnd (quiz_answer block_id correct r)
quiz_full block_id correct r h = ground arith

explain_full :
    (block_id : String) (passed : Bool) (r : LessonRecord)
    → IsFull r
    → FullEnd (explain_answer block_id passed r)
explain_full block_id passed r h = ground arith

reveal_full : (index : ℕ) (r : LessonRecord) → IsFull r → FullEnd (reveal index r)
reveal_full index r h = ground arith

concept_full :
    (now : String) (correct : Bool) (e : ConceptEntry)
    → IsFullConcept e
    → IsOk (seen_at now (bump_concept correct e)).0
      × IsFullConcept (seen_at now (bump_concept correct e)).1
concept_full now correct e h = ground arith

entry_full :
    (correct : Bool) (e : InterviewEntry)
    → IsFullEntry e
    → IsOk (answer_entry correct e).0 × IsFullEntry (answer_entry correct e).1
entry_full correct e h = ground arith

pub default_full {ℓ} :
    {V : Type ℓ} (P : V → Type 0) (k : String) (d : Dict V) (v : V)
    → AllValues P d
    → P v
    → P (or_else (Dict.get k d) v)
default_full P k d v h p = elim (Option-cases (Dict.get k d)) [
  | inl new ↦ rw new p
  | inr (w, kept) ↦ rw kept (AllValues-get P k d h kept)
]

Safe-on_concept : (now concept : String) (correct : Bool) → Safe (on_concept now concept correct)
unfolding on_concept
Safe-on_concept now concept correct = record {
  at = λ p c.
      let full =
        default_full IsFullConcept concept p.state.concepts new_concept c.concepts
          (record { correct = tt; incorrect = tt }) in
      let (good, kept) = concept_full now correct _ full in
      (
        good,
        record {
          lessons = c.lessons;
          concepts = AllValues-put IsFullConcept concept _ p.state.concepts c.concepts kept;
          interview = c.interview;
        },
      );
}

Safe-on_question : (question_id : String) (correct : Bool) → Safe (on_question question_id correct)
unfolding on_question
Safe-on_question question_id correct = record {
  at = λ p c.
      let full =
        default_full IsFullEntry question_id p.state.interview new_question c.interview
          (record { correct = tt; incorrect = tt; streak = tt }) in
      let (good, kept) = entry_full correct _ full in
      (
        good,
        record {
          lessons = c.lessons;
          concepts = c.concepts;
          interview = AllValues-put IsFullEntry question_id _ p.state.interview c.interview kept;
        },
      );
}

Safe-bump_concepts :
    (now : String) (concepts : List String) (correct : Bool)
    → Safe (bump_concepts now concepts correct)
unfolding bump_concepts
Safe-bump_concepts now [] correct = search safe_rules
Safe-bump_concepts now (c ∷ cs) correct =
    Safe-bind (on_concept now c correct) (λ _. bump_concepts now cs correct)
      (Safe-on_concept now c correct) (λ _. Safe-bump_concepts now cs correct)

pub Safe-mark_started : (now id : String) → Safe (mark_started now id)
unfolding mark_started
Safe-mark_started now id = search (safe_rules, started_full)

pub Safe-record_step : (id block_id : String) → Safe (record_step id block_id)
unfolding record_step
Safe-record_step id block_id = search (safe_rules, step_full)

pub Safe-record_quiz :
    (now id block_id : String) (correct : Bool) (concepts : List String)
    → Safe (record_quiz now id block_id correct concepts)
unfolding record_quiz
Safe-record_quiz now id block_id correct concepts =
    search (safe_rules, quiz_full, Safe-bump_concepts)

pub Safe-record_explain :
    (now id block_id : String) (passed : Bool) (concepts : List String)
    → Safe (record_explain now id block_id passed concepts)
unfolding record_explain
Safe-record_explain now id block_id passed concepts =
    search (safe_rules, explain_full, Safe-bump_concepts)

pub Safe-record_hint : (id : String) (index : ℕ) → Safe (record_hint id index)
unfolding record_hint
Safe-record_hint id index = search (safe_rules, reveal_full)

pub Safe-record_interview :
    (now question_id : String) (correct : Bool) (concepts : List String)
    → Safe (record_interview now question_id correct concepts)
unfolding record_interview
Safe-record_interview now question_id correct concepts =
    search (safe_rules, Safe-on_question, Safe-bump_concepts)

Safe-revoke :
    (id : String) (passed mandatory : Bool)
    → Safe (on_record id (λ r. (ok tt, revoked passed mandatory r)))
Safe-revoke id passed mandatory =
    Safe-on_record id (λ r. (ok tt, revoked passed mandatory r))
      (λ r h. (tt, revoked-IsFull passed mandatory r h))

Safe-settle :
    (now id : String) (passed mandatory : Bool) (concepts : List String)
    → Safe (settle now id passed mandatory concepts)
unfolding settle
Safe-settle now id passed mandatory concepts =
    Safe-bind (when (not (is_empty concepts) && mandatory) (bump_concepts now concepts passed)) _
      (Safe-when _ (bump_concepts now concepts passed) (Safe-bump_concepts now concepts passed))
      (λ _. Safe-revoke id passed mandatory)

pub Safe-record_validation :
    (now id block_id : String) (passed mandatory : Bool) (concepts : List String)
    (historical : Bool)
    → Safe (record_validation now id block_id passed mandatory concepts historical)
unfolding record_validation
Safe-record_validation now id block_id passed mandatory concepts historical =
    search (safe_rules, observe_full now block_id passed historical, Safe-settle)
