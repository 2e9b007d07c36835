-- ===== src/Toolchain.antt =====
-- learning/server/toolchain.py: the native tools of the machine, and which requirements they meet.
pub mod Detection
pub mod Requirements
use flight_test_lab.Prelude.{
  String, Bool, true, false, not, ◌&&◌, ◌||◌, Option, none, some, List, [], ◌∷◌, ◌++◌, str_eq,
  if◌then◌else◌,
}
use Prim.Native.String

-- What the detection asks of the machine: `shutil.which`, `Path.is_file`, `os.environ.get`, the
-- directory of `sys.executable`, and `directory / name` as a text.
pub record Machine : Type 0 where
  pub which : String → Option String
  pub is_file : String → Bool
  pub env : String → Option String
  pub python_dir : String
  pub join : String → String → String

abbrev pub fallback_dirs : List String
fallback_dirs =
    "C:\\dev\\mingw64\\bin" ∷ "C:\\mingw64\\bin" ∷ "C:\\msys64\\mingw64\\bin"
    ∷ "C:\\msys64\\ucrt64\\bin" ∷ "C:\\Program Files\\LLVM\\bin" ∷ "C:\\Program Files\\CMake\\bin"
    ∷ []

-- The truth value of a text or `None`.
abbrev pub is_set : Option String → Bool
is_set none = false
is_set (some path) = not (str_eq path "")

abbrev pub or_try : Option String → Option String → Option String
or_try none next = next
or_try (some path) next = some path

-- `if value: return value`
abbrev pub if_set : Option String → Option String
if_set none = none
if_set (some path) = if str_eq path "" then none else some path

abbrev pub if_file : Machine → String → Option String
if_file machine path = if machine.is_file path then some path else none

-- The loop over the suffixes, in one directory.
unfoldable pub find_in : Machine → String → String → Option String
find_in machine name directory =
    or_try (if_file machine (machine.join directory name))
      (if_file machine (machine.join directory (String.◌++◌ name ".exe")))

unfoldable pub find_among : Machine → String → List String → Option String
find_among machine name [] = none
find_among machine name (d ∷ ds) = or_try (find_in machine name d) (find_among machine name ds)

-- `_find`
unfoldable pub find : Machine → String → Option String
find machine name =
    or_try (if_set (machine.which name))
      (or_try (find_in machine name machine.python_dir) (find_among machine name fallback_dirs))

pub record Toolchain : Type 0 where
  pub cmake : Option String
  pub ctest : Option String
  pub cxx : Option String
  pub gdb : Option String
  pub ninja : Option String
  pub make : Option String

unfoldable pub can_build_cpp : Toolchain → Bool
can_build_cpp t =
    if not (is_set t.cmake && is_set t.ctest && is_set t.cxx)
    then false
    else is_set t.ninja || is_set t.make

unfoldable pub can_debug : Toolchain → Bool
can_debug t = is_set t.gdb

unfoldable pub satisfies : Toolchain → String → Bool
satisfies t requirement =
    if str_eq requirement "cpp-build"
    then can_build_cpp t
    else if str_eq requirement "gdb"
    then can_debug t
    else false

-- `[name for name, path in … if not path]`
abbrev pub unless_set : Option String → String → List String → List String
unless_set path name rest = if is_set path then rest else name ∷ rest

unfoldable pub missing_for : Toolchain → String → List String
missing_for t requirement =
    if str_eq requirement "cpp-build"
    then unless_set t.cmake "cmake" (
        unless_set t.ctest "ctest" (
          unless_set t.cxx "a C++ compiler (g++/clang++)" (
            if is_set t.ninja || is_set t.make
            then []
            else "a build backend (ninja, or make/mingw32-make)" ∷ [])))
    else if str_eq requirement "gdb"
    then (if is_set t.gdb then [] else "gdb" ∷ [])
    else requirement ∷ []

-- The override of the environment, if it names a file.
abbrev pub overridden : Machine → String → Option String
overridden machine variable = elim (if_set (machine.env variable)) [
  | none ↦ none
  | some path ↦ if_file machine path
]

unfoldable pub find_first : Machine → List String → Option String
find_first machine [] = none
find_first machine (name ∷ names) = or_try (if_set (find machine name)) (find_first machine names)

unfoldable pub detect_cxx : Machine → Option String
detect_cxx machine =
    or_try (overridden machine "FTL_CXX") (find_first machine ("g++" ∷ "clang++" ∷ "c++" ∷ []))

unfoldable pub resolve : Machine → String → String → Option String
resolve machine variable name = or_try (overridden machine variable) (find machine name)

unfoldable pub resolve_make : Machine → Option String
resolve_make machine =
    or_try (overridden machine "FTL_MAKE") (find_first machine ("mingw32-make" ∷ "make" ∷ []))

unfoldable pub detect_toolchain : Machine → Toolchain
detect_toolchain machine = record {
  cmake = resolve machine "FTL_CMAKE" "cmake";
  ctest = resolve machine "FTL_CTEST" "ctest";
  cxx = detect_cxx machine;
  gdb = resolve machine "FTL_GDB" "gdb";
  ninja = resolve machine "FTL_NINJA" "ninja";
  make = resolve_make machine;
}

-- `", ".join(names)`
unfoldable pub joined : List String → String
joined [] = ""
joined (n ∷ []) = n
joined (n ∷ m ∷ ns) = String.◌++◌ n (String.◌++◌ ", " (joined (m ∷ ns)))

unfoldable pub requirement_reason : String → Toolchain → String
requirement_reason requirement t =
    let missing = joined (missing_for t requirement) in
    if str_eq requirement "cpp-build"
    then String.◌++◌ "This module needs a C++ toolchain and none was found: " (
        String.◌++◌ missing
          " is not on PATH. Install a compiler plus CMake (on Windows: `winget install BrechtSanders.WinLibs.POSIX.UCRT` and `pip install cmake ninja`; on Debian/Ubuntu: `apt install build-essential cmake gdb`), then restart `python -m learning` and this module unlocks itself.")
    else if str_eq requirement "gdb"
    then "This module needs the GNU debugger and gdb is not on PATH. Install it (Windows: the WinLibs MinGW-w64 package ships gdb; Debian/Ubuntu: `apt install gdb`), then restart `python -m learning`."
    else String.◌++◌ "Unsatisfied requirement: "
        (String.◌++◌ requirement (String.◌++◌ " (" (String.◌++◌ missing ").")))
