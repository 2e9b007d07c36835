-- ===== src/Simulator/Connection/Service.antt =====
-- One frame for every request, in order: a connection of a DUT that neither drops nor terminates.
use flight_test_lab.Prelude.{
  ℕ, zero, suc, ◌+◌, ◌≤◌, ◌<◌, ◌≡◌, refl, false, none, some, List, [], ◌∷◌, ◌++◌, map, arith, All,
  length, is_empty, ltb, if◌then◌else◌, Bool-cases, inl, inr, ◌∙◌, length-append,
}
use flight_test_lab.Prelude.Int.{pos, ltb_ℤ}
use flight_test_lab.Json.Loads.{Scan}
use flight_test_lab.Simulator.Framing.{
  rstrip, readline-nil, readline-payload, length-rstrip_newline,
}
use flight_test_lab.Simulator.Faults.{FaultConfig}
use flight_test_lab.Simulator.Connection.{
  max_line_bytes, Frame, reply, not_json, Effect, request, Turn, go_on, text_of, answer, serve,
  serve_line, delay_effects, answer_effects, after_turn, rounds, handle,
}
use flight_test_lab.Simulator.Connection.Replies.{frames, frames-append, wire, IsPayload}

is_empty-line : (p : List ℕ) → is_empty (p ++ b'\n' ∷ []) ≡ false
is_empty-line [] = refl
is_empty-line (b ∷ p) = refl

length-wire : (ps : List (List ℕ)) → length ps < suc (length (wire ps))
length-wire [] = omega arith
length-wire (p ∷ ps) = omega (arith, length-wire ps, length-append p (b'\n' ∷ wire ps))

module _ (decode_utf8 : List ℕ → List ℕ) (scan : List ℕ → Scan) (faults : FaultConfig)
    (limit : ℕ) where
  -- The frame that a payload is owed.
  abbrev pub frame_for : List ℕ → Frame
  frame_for p =
      if faults.malformed_response
      then not_json
      else reply (answer decode_utf8 scan limit (text_of decode_utf8 scan (p ++ b'\n' ∷ [])))

  -- The effects of a request that is served.
  abbrev pub served : List ℕ → List Effect
  served text =
      delay_effects decode_utf8 scan faults.response_delay_ms
      ++ answer_effects decode_utf8 scan faults.malformed_response
          (answer decode_utf8 scan limit text)

  frames-served :
      (p : List ℕ) → frames (served (text_of decode_utf8 scan (p ++ b'\n' ∷ []))) ≡ frame_for p ∷ []
  frames-served p = elim (Bool-cases (ltb_ℤ (pos 0) faults.response_delay_ms)) [
    | inl late ↦ rw late (ground arith)
    | inr prompt ↦ rw prompt (ground arith)
  ]

  module _ (kept : faults.drop_connection ≡ false)
      (lasting : faults.exit_after_requests ≡ none) where
    serve_line-payload :
        (count : ℕ) (p : List ℕ)
        → length p ≤ max_line_bytes
        → serve_line decode_utf8 scan faults limit count (p ++ b'\n' ∷ []) ≡ record {
          effects =
              request (text_of decode_utf8 scan (p ++ b'\n' ∷ []))
              ∷ served (text_of decode_utf8 scan (p ++ b'\n' ∷ []));
          count = count;
          control = go_on;
        }
    unfolding serve_line serve
    serve_line-payload count p fits =
        let short : ltb max_line_bytes (length (rstrip (p ++ b'\n' ∷ []))) ≡ false =
          ground (arith, length-rstrip_newline p) in
        rw (short, lasting, kept)

    rounds-wire :
        (fuel count : ℕ) (ps : List (List ℕ))
        → length ps < fuel
        → All IsPayload ps
        → (t : Turn) × (rounds decode_utf8 scan fuel faults limit count (wire ps) ≡ some t)
          × (frames t.effects ≡ map frame_for ps)
          × (t.count ≡ count)
    unfolding rounds after_turn
    rounds-wire zero count ps h all = elim h [ ]
    rounds-wire (suc fuel) count [] h all = (
      record { effects = Effect.client_disconnected ∷ []; count = count; control = go_on },
      rw readline-nil,
      refl,
      refl,
    )
    rounds-wire (suc fuel) count (p ∷ ps) h all =
        let (t, e, in_order, same) = rounds-wire fuel count ps (omega arith) all.1 in
        let text = text_of decode_utf8 scan (p ++ b'\n' ∷ []) in
        let read =
          readline-payload (max_line_bytes + 2) p (wire ps) all.0.0 (omega (arith, all.0.1)) in
        (
          record t { effects = request text ∷ served text ++ t.effects },
          rw (read, is_empty-line p, serve_line-payload count p all.0.1, e),
          frames-append (served text) t.effects ∙ cc (frames-served p, in_order),
          same,
        )

    -- With a configuration that neither drops connections nor counts requests, a client that sends n
    -- requests, each at most 1,048,576 bytes without a newline and then ended by one, gets n frames, the
    -- i-th for its i-th request: the protocol's answer to it, or the malformed line where that fault is
    -- on. Delays change nothing of this, and the request counter stays as it was.
    pub handle-wire :
        (count : ℕ) (ps : List (List ℕ))
        → All IsPayload ps
        → (t : Turn) × (handle decode_utf8 scan faults limit count (wire ps) ≡ some t)
          × (frames t.effects ≡ map frame_for ps)
          × (t.count ≡ count)
    unfolding handle
    handle-wire count ps all =
        let (t, e, in_order, same) =
          rounds-wire (suc (length (wire ps))) count ps (length-wire ps) all in
        (record t { effects = Effect.client_connected ∷ t.effects }, rw e, in_order, same)

    rounds-one :
        (fuel count : ℕ) (p : List ℕ)
        → IsPayload p
        → rounds decode_utf8 scan (suc (suc fuel)) faults limit count (p ++ b'\n' ∷ [])
          ≡ some (record {
            effects =
                request (text_of decode_utf8 scan (p ++ b'\n' ∷ []))
                  ∷ served (text_of decode_utf8 scan (p ++ b'\n' ∷ []))
                ++ Effect.client_disconnected ∷ [];
            count = count;
            control = go_on;
          })
    unfolding rounds after_turn
    rounds-one fuel count p fits =
        let read = readline-payload (max_line_bytes + 2) p [] fits.0 (omega (arith, fits.1)) in
        rw (read, is_empty-line p, serve_line-payload count p fits.1, readline-nil)

    -- The effects of a connection with one request, in order.
    pub handle-one :
        (count : ℕ) (p : List ℕ)
        → IsPayload p
        → handle decode_utf8 scan faults limit count (p ++ b'\n' ∷ [])
          ≡ some (record {
            effects =
                Effect.client_connected
                  ∷ request (text_of decode_utf8 scan (p ++ b'\n' ∷ []))
                  ∷ served (text_of decode_utf8 scan (p ++ b'\n' ∷ []))
                ++ Effect.client_disconnected ∷ [];
            count = count;
            control = go_on;
          })
    unfolding handle
    handle-one count p fits =
        let size : length (p ++ b'\n' ∷ []) ≡ suc (length p) =
          omega (arith, length-append p (b'\n' ∷ [])) in
        rw (size, rounds-one (length p) count p fits)
