-- ===== src/Simulator/Connection/Evidence.antt =====
-- The log explains every fault: what a connection did wrong is what it logged as injected.
use flight_test_lab.Prelude.{
  ℕ, zero, suc, ◌+◌, ◌≡◌, refl, Option, none, some, List, [], ◌∷◌, ◌++◌, arith, length, is_empty,
  Bool-cases, Option-cases, inl, inr,
}
use mathlib.Core.List.{append_assoc, append-nil}
use flight_test_lab.Prelude.Int.{ℤ}
use flight_test_lab.Json.Loads.{Scan}
use flight_test_lab.Simulator.Framing.{readline}
use flight_test_lab.Simulator.Faults.{FaultConfig}
use flight_test_lab.Simulator.Connection.{
  max_line_bytes, reply, not_json, Injected, process_termination, drop_connection, delayed_response,
  malformed_response, Effect, Turn, Control, go_on, broke, returned, exited, serve, serve_line,
  after_turn, rounds, handle,
}

-- A fault as a client meets it.
pub data Symptom : Type 0 where
  delay : ℤ → Symptom
  malformed dropped terminated : Symptom

abbrev pub symptom : Injected → Symptom
symptom (process_termination n) = terminated
symptom drop_connection = dropped
symptom (delayed_response ms) = delay ms
symptom malformed_response = malformed

-- The faults that the log names, in order.
abbrev pub logged : List Effect → List Symptom
logged [] = []
logged (Effect.fault_injected f ∷ es) = symptom f ∷ logged es
logged (Effect.client_connected ∷ es) = logged es
logged (_ ∷ es) = logged es

-- The faults that happened on the connection, in order.
abbrev pub observed : List Effect → List Symptom
observed [] = []
observed (Effect.slept ms ∷ es) = delay ms ∷ observed es
observed (Effect.sent not_json ∷ es) = malformed ∷ observed es
observed (Effect.sent (reply fields) ∷ es) = observed es
observed (Effect.client_connected ∷ es) = observed es
observed (_ ∷ es) = observed es

abbrev pub ending : Control → List Symptom
ending returned = dropped ∷ []
ending exited = terminated ∷ []
ending go_on = []
ending broke = []

abbrev pub IsExplained : Turn → Type 0
IsExplained t = logged t.effects ≡ observed t.effects ++ ending t.control

logged-append : (es fs : List Effect) → logged (es ++ fs) ≡ logged es ++ logged fs
logged-append [] fs = refl
logged-append (Effect.fault_injected f ∷ es) fs = rw (logged-append es fs)
logged-append (Effect.client_connected ∷ es) fs = logged-append es fs
logged-append (_ ∷ es) fs = logged-append es fs

observed-append : (es fs : List Effect) → observed (es ++ fs) ≡ observed es ++ observed fs
observed-append [] fs = refl
observed-append (Effect.slept ms ∷ es) fs = rw (observed-append es fs)
observed-append (Effect.sent not_json ∷ es) fs = rw (observed-append es fs)
observed-append (Effect.sent (reply fields) ∷ es) fs = observed-append es fs
observed-append (Effect.client_connected ∷ es) fs = observed-append es fs
observed-append (_ ∷ es) fs = observed-append es fs

same-IsExplained : (r : Turn) {t : Turn} → some r ≡ some t → IsExplained r → IsExplained t
same-IsExplained r {t} e h = let same : r ≡ t = cc in rw (← same) h

joined-IsExplained :
    (es fs : List Effect) (c : Control)
    → logged es ≡ observed es ++ []
    → logged fs ≡ observed fs ++ ending c
    → logged (es ++ fs) ≡ observed (es ++ fs) ++ ending c
joined-IsExplained es fs c h k =
    rw (logged-append es fs, observed-append es fs, h, k, append-nil, append_assoc)

control_cases :
    (es : List Effect) (count : ℕ) (c : Control) (rest : Option Turn) {t : Turn}
    → logged es ≡ observed es ++ ending c
    → ((more : Turn) → rest ≡ some more → IsExplained more)
    → after_turn (record { effects = es; count = count; control = c }) rest ≡ some t
    → IsExplained t
unfolding after_turn
control_cases es count go_on none h more e = cc
control_cases es count go_on (some r) {t} h more e =
    same-IsExplained (record r { effects = es ++ r.effects }) e
      (joined-IsExplained es r.effects r.control h (more r refl))
control_cases es count broke rest h more e =
    same-IsExplained _ e (joined-IsExplained es (Effect.client_disconnected ∷ []) broke h refl)
control_cases es count returned rest h more e = same-IsExplained _ e h
control_cases es count exited rest h more e = same-IsExplained _ e h

after_turn-IsExplained :
    (turn : Turn) (rest : Option Turn) {t : Turn}
    → IsExplained turn
    → ((more : Turn) → rest ≡ some more → IsExplained more)
    → after_turn turn rest ≡ some t
    → IsExplained t
unfolding after_turn
after_turn-IsExplained turn rest h more e =
    control_cases turn.effects turn.count turn.control rest h more e

module _ (decode_utf8 : List ℕ → List ℕ) (scan : List ℕ → Scan) (faults : FaultConfig)
    (limit : ℕ) where
  serve_line-IsExplained :
      (count : ℕ) (line : List ℕ)
      → IsExplained (serve_line decode_utf8 scan faults limit count line)
  unfolding serve_line serve
  serve_line-IsExplained count line = ground arith

  rounds-IsExplained :
      (fuel count : ℕ) (stream : List ℕ) {t : Turn}
      → rounds decode_utf8 scan fuel faults limit count stream ≡ some t
      → IsExplained t
  unfolding rounds
  rounds-IsExplained zero count stream e = cc
  rounds-IsExplained (suc fuel) count stream {t} e =
      let (line, rest) = readline (max_line_bytes + 2) stream in
      let turn = serve_line decode_utf8 scan faults limit count line in
      elim (Bool-cases (is_empty line)) [
        | inl over ↦
            same-IsExplained
              (record { effects = Effect.client_disconnected ∷ []; count = count; control = go_on })
              (rw over at e) refl
        | inr more ↦
            after_turn-IsExplained turn _ (serve_line-IsExplained count line)
              (λ m. rounds-IsExplained fuel turn.count rest {t = m}) (rw more at e)
      ]

  -- Whatever the faults and the bytes of the client, the log of a connection names, in order, exactly
  -- the faults that happened on it: each delay with its length, each malformed answer, and the drop or
  -- the termination that ended it.
  pub handle-IsExplained :
      (count : ℕ) (stream : List ℕ) {t : Turn}
      → handle decode_utf8 scan faults limit count stream ≡ some t
      → logged t.effects ≡ observed t.effects ++ ending t.control
  unfolding handle
  handle-IsExplained count stream {t} e =
      elim (Option-cases
        (rounds decode_utf8 scan (suc (length stream)) faults limit count stream)) [
          | inl stuck ↦ cc (rw stuck at e)
          | inr (r, done) ↦
              same-IsExplained (record r { effects = Effect.client_connected ∷ r.effects })
                (rw done at e) (rounds-IsExplained (suc (length stream)) count stream done)
        ]
