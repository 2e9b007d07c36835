-- ===== src/Checks/Pytest/Proof.antt =====
-- When the check of learning/checks/pytest_check.py passes.
use flight_test_lab.Prelude.{
  String, Bool, true, false, not, ◌&&◌, ◌||◌, ◌≡◌, refl, sym, ap, ◌∙◌, fun_ext, Option, none, some,
  List, [], ◌∷◌, ◌++◌, str_eq, contains, all, is_empty, arith, if◌then◌else◌,
}
use flight_test_lab.Result.{Result, ok, err, >>=-eq-ok, ok-injective}
use flight_test_lab.Json.{Json, Fields, str}
use flight_test_lab.Checks.Pytest.{
  CheckError, bad_pattern, Settings, TestCase, Child, Failure, Verdict, is_part, names_where,
  cases_of, junit_test_names, is_zero, exit_failures, matching, name_failures, report_failures,
  pattern_failures, no_match, not_in_report, all_skipped, errored, judge, run, settings_of,
}

abbrev any {ℓ} : {A : Type ℓ} → (A → Bool) → List A → Bool
any p [] = false
any p (x ∷ xs) = p x || any p xs

-- A case that has this name, and a case of whose name the text is a part.
abbrev is_named : String → TestCase → Bool
is_named n c = elim c.name [ none ↦ false | some m ↦ not (str_eq m "") && str_eq m n ]

abbrev is_meant : String → TestCase → Bool
is_meant expected c = elim c.name [
  | none ↦ false
  | some m ↦ not (str_eq m "") && is_part expected m
]

abbrev of_name : (String → Bool) → TestCase → Bool
of_name q c = elim c.name [ none ↦ false | some m ↦ q m ]

-- Of the cases that are meant by the text, one was never skipped; and where a failure is required,
-- one has failed. Two cases of one name count as one.
abbrev pub is_verified : List TestCase → Bool → Json → Bool
is_verified cases require (str e) =
    any (λ c. is_meant e c && of_name (λ n. not (any (λ d. is_named n d && d.is_skipped) cases)) c)
      cases
    && (not require
        || any
            (λ c. is_meant e c && of_name (λ n. any (λ d. is_named n d && d.has_failure) cases) c)
            cases)
is_verified cases require _ = true

abbrev pub is_found : Option Bool → Bool
is_found none = false
is_found (some b) = b

abbrev pub exits_well : Bool → Child → Bool
exits_well expects_pass child =
    not child.timed_out
    && (if expects_pass then is_zero child.exit_status else not (is_zero child.exit_status))

-- What the settings ask for, of the child's report, output and exit.
pub is_proved : (String → String → Option Bool) → Settings → Child → Bool
is_proved re_search settings child =
    exits_well settings.expects_pass child
    && (all (is_verified (cases_of child.report) settings.require_failure) settings.junit_contains
        && all (λ p. is_found (re_search p child.stdout)) settings.patterns)

contains-names_where :
    (p : TestCase → Bool) (n : String) (cases : List TestCase)
    → contains n (names_where p cases) ≡ any (λ d. is_named n d && p d) cases
unfolding names_where
contains-names_where p n [] = refl
contains-names_where p n (c ∷ cs) = let step = contains-names_where p n cs in ground arith

-- A test of every matching name fails on the name of a case that is meant.
all-matching :
    (q : String → Bool) (e : String) (cases : List TestCase)
    → not (all q (matching e (names_where (λ c. true) cases)))
      ≡ any (λ c. is_meant e c && of_name (λ n. not (q n)) c) cases
unfolding names_where matching
all-matching q e [] = refl
all-matching q e (c ∷ cs) = let step = all-matching q e cs in ground arith

is_empty-append {ℓ} :
    {A : Type ℓ} (xs ys : List A) → is_empty (xs ++ ys) ≡ (is_empty xs && is_empty ys)
is_empty-append [] ys = refl
is_empty-append (x ∷ xs) ys = refl

all_empty {ℓ} :
    {A : Type ℓ} (xs ys zs : List A)
    → is_empty (xs ++ ys ++ zs) ≡ (is_empty xs && (is_empty ys && is_empty zs))
all_empty [] [] zs = refl
all_empty [] (y ∷ ys) zs = refl
all_empty (x ∷ xs) ys zs = refl

exit_failures-well :
    (b : Bool) (child : Child) → is_empty (exit_failures b child) ≡ exits_well b child
unfolding exit_failures
exit_failures-well b child = ground arith

after_pattern :
    String → Option Bool → Result CheckError (List Failure) → Result CheckError (List Failure)
after_pattern p o rest = elim o [
  | none ↦ err bad_pattern
  | some true ↦ rest
  | some false ↦ elim rest [ ok more ↦ ok (no_match p ∷ more) | err e ↦ err e ]
]

found_step :
    (o : Option Bool) (rest : Result CheckError (List Failure)) (others : Bool) (p : String)
    {fs : List Failure}
    → ((gs : List Failure) → rest ≡ ok gs → is_empty gs ≡ others)
    → after_pattern p o rest ≡ ok fs
    → is_empty fs ≡ (is_found o && others)
unfolding after_pattern
found_step none rest others p ih h = cc
found_step (some true) rest others p {fs} ih h = ih fs h
found_step (some false) (ok more) others p {fs} ih h =
    let same : no_match p ∷ more ≡ fs = ok-injective h in rw (← same) refl
found_step (some false) (err e) others p ih h = cc

pattern_failures-found :
    (re_search : String → String → Option Bool) (stdout : String) (ps : List String)
    {fs : List Failure}
    → pattern_failures re_search stdout ps ≡ ok fs
    → is_empty fs ≡ all (λ p. is_found (re_search p stdout)) ps
unfolding pattern_failures after_pattern
pattern_failures-found re_search stdout [] {fs} h =
    let same : [] ≡ fs = ok-injective h in rw (← same) refl
pattern_failures-found re_search stdout (p ∷ ps) {fs} h =
    found_step (re_search p stdout) (pattern_failures re_search stdout ps) _ p
      (λ gs e. pattern_failures-found re_search stdout ps e) h

-- The three ways to fail a name, as one test.
verdict_empty :
    (ms : List String) (s f : String → Bool) (require : Bool) (e : String) {a b : Bool}
    → not (all s ms) ≡ a
    → not (all f ms) ≡ b
    → is_empty (
        if is_empty ms
        then not_in_report e ∷ []
        else if all s ms
        then all_skipped e ∷ []
        else if require && all f ms
        then errored e ∷ []
        else [])
      ≡ (a && (not require || b))
verdict_empty [] s f require e h k = rw (← h) refl
verdict_empty (m ∷ ms) s f require e h k = ground arith

not-not : (b : Bool) → not (not b) ≡ b
not-not true = refl
not-not false = refl

never_skipped-any :
    (cases : List TestCase) (e : String)
    → not (
        all
          (λ n. contains n (names_where (λ c. c.is_skipped) cases))
          (matching e (names_where (λ c. true) cases)))
      ≡ any
          (λ c.
            is_meant e c && of_name (λ n. not (any (λ d. is_named n d && d.is_skipped) cases)) c)
          cases
never_skipped-any cases e =
    all-matching (λ n. contains n (names_where (λ c. c.is_skipped) cases)) e cases
    ∙ ap (λ k. any (λ c. is_meant e c && of_name (λ n. not (k n)) c) cases)
        (fun_ext (λ n. contains-names_where (λ c. c.is_skipped) n cases))

has_failed-any :
    (cases : List TestCase) (e : String)
    → not (
        all
          (λ n. not (contains n (names_where (λ c. c.has_failure) cases)))
          (matching e (names_where (λ c. true) cases)))
      ≡ any
          (λ c. is_meant e c && of_name (λ n. any (λ d. is_named n d && d.has_failure) cases) c)
          cases
has_failed-any cases e =
    all-matching (λ n. not (contains n (names_where (λ c. c.has_failure) cases))) e cases
    ∙ ap (λ k. any (λ c. is_meant e c && of_name k c) cases)
        (fun_ext (λ n. not-not _ ∙ contains-names_where (λ c. c.has_failure) n cases))

name_failures-verified :
    (report : Option (List TestCase)) (require : Bool) (e : Json)
    → is_empty (name_failures (junit_test_names report) require e)
      ≡ is_verified (cases_of report) require e
unfolding name_failures junit_test_names
name_failures-verified report require (str e) =
    let cases = cases_of report in
    verdict_empty (matching e (names_where (λ c. true) cases))
      (λ n. contains n (names_where (λ c. c.is_skipped) cases))
      (λ n. not (contains n (names_where (λ c. c.has_failure) cases))) require e
      (never_skipped-any cases e) (has_failed-any cases e)
name_failures-verified report require _ = refl

report_failures-verified :
    (report : Option (List TestCase)) (require : Bool) (es : List Json)
    → is_empty (report_failures (junit_test_names report) require es)
      ≡ all (is_verified (cases_of report) require) es
unfolding report_failures
report_failures-verified report require [] = refl
report_failures-verified report require (e ∷ es) =
    is_empty-append (name_failures (junit_test_names report) require e) _
    ∙ rw (name_failures-verified report require e, report_failures-verified report require es) refl

judge-proved :
    (re_search : String → String → Option Bool) (settings : Settings) (child : Child) {v : Verdict}
    → judge re_search settings child ≡ ok v
    → v.passed ≡ is_proved re_search settings child
unfolding judge is_proved
judge-proved re_search settings child {v} h =
    let (unmatched, found, rest) =
      >>=-eq-ok (pattern_failures re_search child.stdout settings.patterns) _ {b = v} h in
    sym (ap (λ w. w.passed) (ok-injective rest))
    ∙ all_empty (exit_failures settings.expects_pass child)
        (report_failures (junit_test_names child.report) settings.require_failure
          settings.junit_contains)
        unmatched
    ∙ rw
        (
          exit_failures-well settings.expects_pass child,
          report_failures-verified child.report settings.require_failure settings.junit_contains,
          pattern_failures-found re_search child.stdout settings.patterns found,
        )
        refl

-- When the check answers at all, it passes exactly if its settings are accepted and proved by the
-- child that ran with them: the child ended in time with the exit status that is expected; for each
-- expected text the report has a case whose name contains it and that was never skipped, and one that
-- failed where a failure is required, two cases of one name counting as one; and each
-- pattern is found in the output.
pub run-proved :
    (pytest : Settings → Child) (re_search : String → String → Option Bool) (args : Fields)
    {v : Verdict}
    → run pytest re_search args ≡ ok v
    → (settings : Settings) × (settings_of args ≡ ok settings)
      × (v.passed ≡ is_proved re_search settings (pytest settings))
unfolding run
run-proved pytest re_search args {v} h =
    let (settings, accepted, rest) = >>=-eq-ok (settings_of args) _ {b = v} h in
    (settings, accepted, judge-proved re_search settings (pytest settings) rest)
