-- ===== src/Toolchain/Detection.antt =====
-- What `detect_toolchain` of learning/server/toolchain.py finds.
use flight_test_lab.Prelude.{
  All, ◌≡◌, refl, inl, inr, ◌⊎◌, String, true, Option, none, some, List, [], ◌∷◌, str_eq,
  Bool-cases, Option-cases,
}
use flight_test_lab.Toolchain.{
  Machine, fallback_dirs, or_try, if_set, if_file, find_in, find_among, find, Toolchain, overridden,
  find_first, detect_cxx, resolve, resolve_make, detect_toolchain,
}

abbrev pub tools : Toolchain → List (Option String)
tools t = t.cmake ∷ t.ctest ∷ t.cxx ∷ t.gdb ∷ t.ninja ∷ t.make ∷ []

module _ (machine : Machine) where
  -- A tool that is not there, or one that the PATH or the disk has.
  abbrev pub IsReal : Option String → Type 0
  IsReal none = Unit
  IsReal (some path) =
      ((name : String) × (machine.which name ≡ some path)) ⊎ (machine.is_file path ≡ true)

  or_try-IsReal : (o p : Option String) → IsReal o → IsReal p → IsReal (or_try o p)
  or_try-IsReal none p h k = k
  or_try-IsReal (some path) p h k = h

  if_file-IsReal : (path : String) → IsReal (if_file machine path)
  if_file-IsReal path = elim (Bool-cases (machine.is_file path)) [
    | inl there ↦ rw (there, if_file, IsReal) (inr there)
    | inr gone ↦ rw (gone, if_file, IsReal) tt
  ]

  if_set-IsReal : (o : Option String) → IsReal o → IsReal (if_set o)
  if_set-IsReal none h = tt
  if_set-IsReal (some path) h = elim (Bool-cases (str_eq path "")) [
    | inl empty ↦ rw (empty, if_set, IsReal) tt
    | inr full ↦ rw (full, if_set, IsReal) h
  ]

  which-IsReal : (name : String) (o : Option String) → machine.which name ≡ o → IsReal o
  which-IsReal name none e = tt
  which-IsReal name (some path) e = inl (name, e)

  find_in-IsReal : (name directory : String) → IsReal (find_in machine name directory)
  unfolding find_in
  find_in-IsReal name directory = or_try-IsReal _ _ (if_file-IsReal _) (if_file-IsReal _)

  find_among-IsReal : (name : String) (ds : List String) → IsReal (find_among machine name ds)
  unfolding find_among
  find_among-IsReal name [] = tt
  find_among-IsReal name (d ∷ ds) =
      or_try-IsReal (find_in machine name d) (find_among machine name ds) (find_in-IsReal name d)
        (find_among-IsReal name ds)

  find-IsReal : (name : String) → IsReal (find machine name)
  unfolding find
  find-IsReal name =
      or_try-IsReal (if_set (machine.which name)) _
        (if_set-IsReal (machine.which name) (which-IsReal name _ refl))
        (or_try-IsReal (find_in machine name machine.python_dir) _
          (find_in-IsReal name machine.python_dir) (find_among-IsReal name fallback_dirs))

  find_first-IsReal : (names : List String) → IsReal (find_first machine names)
  unfolding find_first
  find_first-IsReal [] = tt
  find_first-IsReal (n ∷ ns) =
      or_try-IsReal (if_set (find machine n)) (find_first machine ns)
        (if_set-IsReal (find machine n) (find-IsReal n)) (find_first-IsReal ns)

  overridden-IsReal : (variable : String) → IsReal (overridden machine variable)
  overridden-IsReal variable = elim (Option-cases (if_set (machine.env variable))) [
    | inl unset ↦ rw (unset, overridden, IsReal) tt
    | inr (path, set) ↦ rw (set, overridden) (if_file-IsReal path)
  ]

  resolve-IsReal : (variable name : String) → IsReal (resolve machine variable name)
  unfolding resolve
  resolve-IsReal variable name =
      or_try-IsReal (overridden machine variable) (find machine name) (overridden-IsReal variable)
        (find-IsReal name)

  -- Every tool that the detection reports is one that the PATH lookup answered or a file that is there,
  -- whatever the environment's variables say.
  pub detect_toolchain-IsReal : All IsReal (tools (detect_toolchain machine))
  unfolding detect_toolchain detect_cxx resolve_make
  detect_toolchain-IsReal =
      let first = λ (variable : String) (names : List String).
        or_try-IsReal (overridden machine variable) (find_first machine names)
          (overridden-IsReal variable) (find_first-IsReal names) in
      (
        resolve-IsReal _ _,
        (
          resolve-IsReal _ _,
          (first _ _, (resolve-IsReal _ _, (resolve-IsReal _ _, (first _ _, tt)))),
        ),
      )
