-- ===== src/Simulator/Framing.antt =====
-- The byte side of `DutRequestHandler.handle` in simulator/simulator.py: `rfile.readline(limit)` and
-- `rstrip(b"\r\n")` over the bytes that a client sends.
use flight_test_lab.Prelude.{
  ℕ, zero, suc, ◌≤◌, ◌<◌, ◌≡◌, ◌≢◌, refl, Bool, ◌&&◌, ◌||◌, List, [], ◌∷◌, ◌++◌, All, arith, length,
  is_empty, if◌then◌else◌, ◌==◌,
}

-- The line, with its newline if it was reached, and the bytes left in the stream.
unfoldable pub readline : ℕ → List ℕ → List ℕ × List ℕ
readline zero stream = ([], stream)
readline (suc limit) [] = ([], [])
readline (suc limit) (b ∷ stream) =
    let more = readline limit stream in
    if b == b'\n' then (b ∷ [], stream) else (b ∷ more.0, more.1)

abbrev pub is_line_end : ℕ → Bool
is_line_end b = b == b'\n' || b == b'\r'

-- `line.rstrip(b"\r\n")`, and the same on the text
unfoldable pub rstrip : List ℕ → List ℕ
rstrip [] = []
rstrip (b ∷ bs) = let rest = rstrip bs in if is_empty rest && is_line_end b then [] else b ∷ rest

-- No byte is lost or made up.
pub readline-append :
    (limit : ℕ) (stream : List ℕ) → (readline limit stream).0 ++ (readline limit stream).1 ≡ stream
unfolding readline
readline-append zero stream = refl
readline-append (suc limit) [] = refl
readline-append (suc limit) (b ∷ stream) = ground (arith, readline-append limit stream)

-- A line from a stream that is not at its end takes at least one byte from it.
pub readline-progress :
    (limit : ℕ) (b : ℕ) (stream : List ℕ)
    → length (readline (suc limit) (b ∷ stream)).1 ≤ length stream
unfolding readline
readline-progress zero b stream = ground arith
readline-progress (suc limit) b [] = ground arith
readline-progress (suc limit) b (c ∷ stream) = ground (arith, readline-progress limit c stream)

-- A payload without a newline that fits is read whole, with its newline.
pub readline-payload :
    (limit : ℕ) (payload rest : List ℕ)
    → All (λ b. b ≢ b'\n') payload
    → length payload < limit
    → readline limit (payload ++ b'\n' ∷ rest) ≡ (payload ++ b'\n' ∷ [], rest)
unfolding readline
readline-payload zero payload rest h l = elim l [ ]
readline-payload (suc limit) [] rest h l = refl
readline-payload (suc limit) (b ∷ payload) rest h l =
    ground (arith, readline-payload limit payload rest h.1)

pub length-rstrip_newline :
    (payload : List ℕ) → length (rstrip (payload ++ b'\n' ∷ [])) ≤ length payload
unfolding rstrip
length-rstrip_newline [] = ground arith
length-rstrip_newline (b ∷ payload) = ground (arith, length-rstrip_newline payload)

pub readline-nil : (limit : ℕ) → readline limit [] ≡ ([], [])
unfolding readline
readline-nil zero = refl
readline-nil (suc limit) = refl
