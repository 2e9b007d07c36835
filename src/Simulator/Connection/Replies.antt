-- ===== src/Simulator/Connection/Replies.antt =====
-- What a client gets for what it sends: the loop of a connection ends, and every line has its frame.
use flight_test_lab.Prelude.{
  ℕ, zero, suc, ◌+◌, ◌≤◌, ◌<◌, ◌≡◌, ◌≢◌, refl, ap, Option, none, some, List, [], ◌∷◌, ◌++◌, arith,
  All, length, is_empty, Bool-cases, Option-cases, inl, inr,
}
use flight_test_lab.Json.Loads.{Scan}
use flight_test_lab.Simulator.Framing.{readline, readline-nil, readline-progress}
use flight_test_lab.Simulator.Faults.{FaultConfig}
use flight_test_lab.Simulator.Connection.{
  max_line_bytes, Frame, Effect, Turn, serve_line, after_turn, rounds, handle,
}

-- The frames among the effects, in order.
abbrev pub frames : List Effect → List Frame
frames [] = []
frames (Effect.sent f ∷ es) = f ∷ frames es
frames (Effect.client_connected ∷ es) = frames es
frames (_ ∷ es) = frames es

pub frames-append : (es fs : List Effect) → frames (es ++ fs) ≡ frames es ++ frames fs
frames-append [] fs = refl
frames-append (Effect.sent f ∷ es) fs = ap (λ (l : List Frame). f ∷ l) (frames-append es fs)
frames-append (Effect.client_connected ∷ es) fs = frames-append es fs
frames-append (_ ∷ es) fs = frames-append es fs

-- The bytes of a list of payloads, each with its newline.
abbrev pub wire : List (List ℕ) → List ℕ
wire [] = []
wire (p ∷ ps) = p ++ b'\n' ∷ wire ps

abbrev pub IsPayload : List ℕ → Type 0
IsPayload p = All (λ b. b ≢ b'\n') p × (length p ≤ max_line_bytes)

after_turn-ne-none : (turn : Turn) (rest : Option Turn) → rest ≢ none → after_turn turn rest ≢ none
unfolding after_turn
after_turn-ne-none turn none h = absurd (h refl)
after_turn-ne-none turn (some t) h = ground arith

module _ (decode_utf8 : List ℕ → List ℕ) (scan : List ℕ → Scan) (faults : FaultConfig)
    (limit : ℕ) where
  rounds-ne-none :
      (fuel count : ℕ) (stream : List ℕ)
      → length stream < fuel
      → rounds decode_utf8 scan fuel faults limit count stream ≢ none
  unfolding rounds
  rounds-ne-none zero count stream h = elim h [ ]
  rounds-ne-none (suc fuel) count [] h = rw readline-nil (λ e. ground arith)
  rounds-ne-none (suc fuel) count (b ∷ stream) h =
      let (line, rest) = readline (max_line_bytes + 2) (b ∷ stream) in
      let shorter = readline-progress (max_line_bytes + 1) b stream in
      let turn = serve_line decode_utf8 scan faults limit count line in
      let tail = rounds-ne-none fuel turn.count rest (omega arith) in
      elim (Bool-cases (is_empty line)) [
        | inl over ↦ rw over (λ e. ground arith)
        | inr more ↦ rw more (after_turn-ne-none turn _ tail)
      ]

  -- The loop of a connection ends, with any faults, whatever the client sends.
  pub handle_total :
      (count : ℕ) (stream : List ℕ)
      → (t : Turn) × (handle decode_utf8 scan faults limit count stream ≡ some t)
  unfolding handle
  handle_total count stream =
      elim (Option-cases
        (rounds decode_utf8 scan (suc (length stream)) faults limit count stream)) [
          | inl stuck ↦
              absurd (rounds-ne-none (suc (length stream)) count stream (omega arith) stuck)
          | inr (t, e) ↦ (record t { effects = Effect.client_connected ∷ t.effects }, rw e)
        ]
