-- ===== src/Simulator/Connection/Termination.antt =====
-- The `process_termination` fault across connections: the server's one counter, whichever threads
-- take its lock, ends the process at the configured request.
use flight_test_lab.Prelude.{
  ℕ, suc, ◌+◌, ◌-◌, ◌≤◌, ◌≡◌, ◌∙◌, Bool, true, false, some, List, [], ◌∷◌, ◌||◌, arith, length, leb,
  if◌then◌else◌, Bool-cases, inl, inr, All,
}
use Prim.Native.Nat.{min}
use flight_test_lab.Prelude.Int.{pos}
use flight_test_lab.Json.Loads.{Scan}
use flight_test_lab.Simulator.Framing.{rstrip}
use flight_test_lab.Simulator.Faults.{FaultConfig}
use flight_test_lab.Simulator.Connection.{max_line_bytes, Turn, Control, exited, serve, serve_line}

abbrev pub is_exit : Control → Bool
is_exit exited = true
is_exit _ = false

abbrev pub IsShort : List ℕ → Type 0
IsShort line = length (rstrip line) ≤ max_line_bytes

module _ (decode_utf8 : List ℕ → List ℕ) (scan : List ℕ → Scan) (faults : FaultConfig)
    (limit : ℕ) where
  -- The rounds of all connections, in the order in which their threads take `request_lock`; after
  -- `os._exit` there is no further round.
  unfoldable pub schedule : ℕ → List (List ℕ) → List Turn
  schedule count [] = []
  schedule count (line ∷ lines) =
      let turn = serve_line decode_utf8 scan faults limit count line in
      let rest = schedule turn.count lines in turn ∷ (if is_exit turn.control then [] else rest)

  abbrev pub ends : List Turn → Bool
  ends [] = false
  ends (t ∷ ts) = is_exit t.control || ends ts

  module _ (n : ℕ) (armed : faults.exit_after_requests ≡ some (pos (suc n))) where
    before_last :
        (count : ℕ) (line : List ℕ)
        → IsShort line
        → count + 1 ≤ n
        → (is_exit (serve_line decode_utf8 scan faults limit count line).control ≡ false)
          × ((serve_line decode_utf8 scan faults limit count line).count ≡ count + 1)
    unfolding serve_line serve
    before_last count line short h = ground arith

    at_last :
        (count : ℕ) (line : List ℕ)
        → IsShort line
        → count ≡ n
        → is_exit (serve_line decode_utf8 scan faults limit count line).control ≡ true
    unfolding serve_line
    at_last count line short h = ground arith

    shift :
        (count len : ℕ)
        → count + 1 ≤ n
        → leb (suc n - (count + 1)) len ≡ leb (suc n - count) (suc len)
    shift count len h = ground arith

    -- With a termination count of n + 1, at most n requests behind it, and lines within the payload
    -- bound, the process serves requests until the counter reaches n + 1, in whatever order the
    -- connections send them, and it ends there exactly if so many come.
    pub schedule-ends :
        (count : ℕ) (lines : List (List ℕ))
        → All IsShort lines
        → count ≤ n
        → (length (schedule count lines) ≡ min (length lines) (suc n - count))
          × (ends (schedule count lines) ≡ leb (suc n - count) (length lines))
    unfolding schedule
    schedule-ends count [] all h = ground arith
    schedule-ends count (line ∷ lines) all h = elim (Bool-cases (leb (count + 1) n)) [
      | inl early ↦
          let (stays, counted) = before_last count line all.0 (ground arith) in
          let (many, over) = schedule-ends (count + 1) lines all.1 (ground arith) in
          rw (stays, counted)
            (omega (arith, many), over ∙ shift count (length lines) (ground arith))
      | inr last ↦ rw (at_last count line all.0 (ground arith)) (ground arith)
    ]
