-- ===== src/Tests/Toolchain.antt =====
-- A concrete machine for learning/server/toolchain.py.
use flight_test_lab.Prelude.{◌≡◌, refl, false, none, some, [], ◌∷◌, All, str_eq, if◌then◌else◌}
use flight_test_lab.Result.{ok}
use flight_test_lab.Curriculum.Schema.{offer}
use flight_test_lab.Toolchain.{Machine, Toolchain, detect_toolchain}
use flight_test_lab.Toolchain.Detection.{IsReal, tools, detect_toolchain-IsReal}
use flight_test_lab.Toolchain.Requirements.{site_of, first_unmet, offered_by, offer-first_unmet}

-- Only gdb is on the PATH.
abbrev machine : Machine
machine = record {
  which = λ name. if str_eq name "gdb" then some "/usr/bin/gdb" else none;
  is_file = λ path. false;
  env = λ variable. none;
  python_dir = "/usr/bin";
  join = λ directory name. name;
}

abbrev debugger_only : Toolchain
debugger_only = record {
  cmake = none;
  ctest = none;
  cxx = none;
  gdb = some "/usr/bin/gdb";
  ninja = none;
  make = none;
}

detect_toolchain-IsReal_example : All (IsReal machine) (tools (detect_toolchain machine))
detect_toolchain-IsReal_example = detect_toolchain-IsReal machine

offer-first_unmet_example :
    offer (site_of [] (λ v. "") debugger_only) ("available", "") ("gdb" ∷ "cpp-build" ∷ [])
    ≡ ok (
        offered_by debugger_only
          ("available", "")
          (first_unmet debugger_only ("gdb" ∷ "cpp-build" ∷ [])))
offer-first_unmet_example =
    offer-first_unmet [] (λ v. "") debugger_only ("available", "") ("gdb" ∷ "cpp-build" ∷ [])
      (refl, (refl, tt))
