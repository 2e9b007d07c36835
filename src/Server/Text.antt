-- ===== src/Server/Text.antt =====
-- The operations on Python's texts that learning/server/app.py uses: `split`, `rsplit`, `strip`, `in`.
use flight_test_lab.Prelude.{
  ℕ, suc, String, Bool, true, false, not, ◌&&◌, ◌||◌, ◌==◌, if◌then◌else◌,
}
use Prim.Native.Char.{code}
use flight_test_lab.Curriculum.Values.{is_space}

-- `s.split(c)[0]`
unfoldable pub before_first : ℕ → String → String
before_first x String.[] = String.[]
before_first x (String.◌∷◌ c s) =
    let rest = before_first x s in if code c == x then String.[] else String.◌∷◌ c rest

unfoldable pub has_code : ℕ → String → Bool
has_code x String.[] = false
has_code x (String.◌∷◌ c s) = code c == x || has_code x s

-- `s.rsplit(c, 1)[0]`
unfoldable pub before_last : ℕ → String → String
unfolding has_code
before_last x String.[] = String.[]
before_last x (String.◌∷◌ c s) =
    let rest = before_last x s in
    if has_code x s then String.◌∷◌ c rest else if code c == x then String.[] else String.◌∷◌ c s

abbrev pub is_empty_text : String → Bool
is_empty_text String.[] = true
is_empty_text (String.◌∷◌ c s) = false

unfoldable pub lstrip : (ℕ → Bool) → String → String
lstrip p String.[] = String.[]
lstrip p (String.◌∷◌ c s) = let rest = lstrip p s in if p (code c) then rest else String.◌∷◌ c s

unfoldable pub rstrip : (ℕ → Bool) → String → String
rstrip p String.[] = String.[]
rstrip p (String.◌∷◌ c s) =
    let rest = rstrip p s in
    if is_empty_text rest && p (code c) then String.[] else String.◌∷◌ c rest

abbrev pub strip : (ℕ → Bool) → String → String
strip p s = rstrip p (lstrip p s)

unfoldable pub starts_with : String → String → Bool
starts_with String.[] s = true
starts_with (String.◌∷◌ d p) String.[] = false
starts_with (String.◌∷◌ d p) (String.◌∷◌ c s) = code d == code c && starts_with p s

-- `s[len(prefix):]`, for a text that starts with the prefix
unfoldable pub drop_prefix : String → String → String
drop_prefix String.[] s = s
drop_prefix (String.◌∷◌ d p) String.[] = String.[]
drop_prefix (String.◌∷◌ d p) (String.◌∷◌ c s) = drop_prefix p s

-- `part in s`
unfoldable pub is_within : String → String → Bool
unfolding starts_with
is_within part String.[] = is_empty_text part
is_within part (String.◌∷◌ c s) = starts_with part (String.◌∷◌ c s) || is_within part s

-- `len(s.split())`, where `inside` says whether a word has begun.
unfoldable pub words_from : Bool → String → ℕ
words_from inside String.[] = 0
words_from inside (String.◌∷◌ c s) =
    let rest = words_from (not (is_space (code c))) s in
    if not inside && not (is_space (code c)) then suc rest else rest

abbrev pub word_count : String → ℕ
word_count s = words_from false s

abbrev pub is_bracket : ℕ → Bool
is_bracket c = c == b'[' || c == b']'
