-- ===== src/Toolchain/Requirements.antt =====
-- The requirements of learning/server/toolchain.py, and the lessons that learning/server/curriculum.py
-- offers by them.
use flight_test_lab.Prelude.{
  ap, ◌∙◌, ◌≡◌, refl, inl, inr, String, Bool, true, false, not, Option, none, some, List, [], ◌∷◌,
  All, is_empty, contains, if◌then◌else◌, Bool-cases, arith,
}
use flight_test_lab.Json.{Json}
use flight_test_lab.Result.{ok, raise_if, ◌>>◌}
use flight_test_lab.Curriculum.Values.{Site, Checked, CurriculumError, unknown_requirement}
use flight_test_lab.Curriculum.Schema
use flight_test_lab.Curriculum.Schema.{offer, known_requirements}
use flight_test_lab.Toolchain.{
  Toolchain, can_build_cpp, can_debug, satisfies, missing_for, requirement_reason,
}

-- A requirement is met exactly if nothing is reported as missing for it.
satisfies-eq-is_empty :
    (t : Toolchain) (requirement : String)
    → satisfies t requirement ≡ is_empty (missing_for t requirement)
unfolding satisfies missing_for can_build_cpp can_debug
satisfies-eq-is_empty t requirement = ground arith

-- What the loader is given of a toolchain.
abbrev pub site_of : List String → (Json → String) → Toolchain → Site
site_of validators py_str t = record {
  known_validators = validators;
  can_build_cpp = can_build_cpp t;
  can_debug = can_debug t;
  reason = λ requirement. requirement_reason requirement t;
  py_str = py_str;
}

-- The first requirement for which something is missing.
unfoldable pub first_unmet : Toolchain → List String → Option String
first_unmet t [] = none
first_unmet t (r ∷ rs) = if is_empty (missing_for t r) then first_unmet t rs else some r

abbrev pub offered_by : Toolchain → String × String → Option String → String × String
offered_by t offered none = offered
offered_by t offered (some r) = ("unavailable", requirement_reason r t)

same_satisfies :
    (validators : List String) (py_str : Json → String) (t : Toolchain) (r : String)
    → Schema.satisfies (site_of validators py_str t) r ≡ is_empty (missing_for t r)
unfolding satisfies
same_satisfies validators py_str t r = (ground arith) ∙ satisfies-eq-is_empty t r

passes :
    {A : Type 0} (b : Bool) (e : CurriculumError) (m : Checked A)
    → b ≡ true
    → (raise_if (not b) e >> m) ≡ m
passes true e m h = refl
passes false e m h = cc

-- Of known requirements, if nothing is missing for any of them, a lesson keeps the status and the reason
-- that it was authored with; otherwise it is unavailable, with what is missing for the first unmet one
-- as the reason.
pub offer-first_unmet :
    (validators : List String) (py_str : Json → String) (t : Toolchain) (offered : String × String)
    (requires : List String)
    → All (λ r. contains r known_requirements ≡ true) requires
    → offer (site_of validators py_str t) offered requires
      ≡ ok (offered_by t offered (first_unmet t requires))
unfolding offer first_unmet
offer-first_unmet validators py_str t offered [] known = refl
offer-first_unmet validators py_str t offered (r ∷ rs) known =
    let site = site_of validators py_str t in
    let turned : Checked (String × String) = ok ("unavailable", requirement_reason r t) in
    passes (contains r known_requirements) (unknown_requirement r) _ known.0
    ∙ ap (λ b. if b then offer site offered rs else turned) (same_satisfies validators py_str t r)
    ∙ elim (Bool-cases (is_empty (missing_for t r))) [
      | inl met ↦ rw met (offer-first_unmet validators py_str t offered rs known.1)
      | inr unmet ↦ rw unmet
    ]
