-- ===== src/Client/Waiting.antt =====
-- `wait_until_ready` of src/testlab/client.py.
use flight_test_lab.Prelude.{
  sym, ap, ◌∙◌, ◌≡◌, ◌⊎◌, refl, inl, inr, ℕ, Bool, true, false, ◌||◌, Option, none, some, List, [],
  ◌∷◌, ◌++◌, ltb, Bool-cases, arith,
}
use mathlib.Core.Path.{subst}
use flight_test_lab.Result.{Result, ok, err}
use flight_test_lab.Exec
use flight_test_lab.Json.{Fields, Float, get}
use flight_test_lab.Json.Loads.{Scan}
use flight_test_lab.Curriculum.{is_text}
use flight_test_lab.Client.{
  unreachable, Raised, communication, LabClient, is_connected, close, connect, Round,
  status_message, left_by, turn_end, received, request, attempt, poll, wait_until_ready,
  is_nonpositive,
}

module _ (dumps : Fields → List ℕ) (limit : ℕ) (scan : List ℕ → Scan) where
  -- The reply of the DUT in a turn says READY.
  abbrev pub IsReady : Float → Round → Type 0
  IsReady timeout r =
      (payload : Fields) × (received dumps limit scan
          (r.peer timeout (dumps status_message ++ b'\n' ∷ []))
        ≡ ok payload)
      × (is_text "READY" (get "state" payload) ≡ true)

  -- A turn before the deadline in which it says so.
  abbrev pub ReadyInTime : Float → ℕ → List Round → Type 0
  ReadyInTime timeout deadline [] = ⊥
  ReadyInTime timeout deadline (r ∷ rs) =
      ((ltb r.now deadline ≡ true) × IsReady timeout r) ⊎ ReadyInTime timeout deadline rs

  -- How the wait may end: ready and connected, or with an error that is no LabCommunicationError.
  abbrev pub Ends : Float → ℕ → List Round → Option (Result Raised (Unit {0}) × LabClient) → Type 0
  Ends timeout deadline rounds none = Unit
  Ends timeout deadline rounds (some (ok u, c)) =
      (is_connected c ≡ true) × ReadyInTime timeout deadline rounds
  Ends timeout deadline rounds (some (err (communication why), c)) = ⊥
  Ends timeout deadline rounds (some (err e, c)) = Unit

  ready_reply :
      (answer : Result Raised Fields) (c c' : LabClient)
      → Exec.◌>>=◌
          (λ (x : LabClient). (answer, x))
          (λ payload. Exec.pure (is_text "READY" (get "state" payload)))
          c
        ≡ (ok true, c')
      → (c ≡ c')
        × (payload : Fields) × (answer ≡ ok payload)
        × (is_text "READY" (get "state" payload) ≡ true)
  ready_reply (err e) c c' h = cc
  ready_reply (ok payload) c c' h = (cc, payload, refl, cc)

  -- What follows the connection.
  abbrev reply_to : Round → LabClient → Result Raised Bool × LabClient
  reply_to r =
      Exec.◌>>=◌ (request dumps limit scan r.peer status_message)
        (λ payload. Exec.pure (is_text "READY" (get "state" payload)))

  reply_to-IsReady :
      (r : Round) (c c' : LabClient)
      → is_connected c ≡ true
      → reply_to r c ≡ (ok true, c')
      → (is_connected c' ≡ true) × IsReady c.response_timeout r
  unfolding request
  reply_to-IsReady r c c' now h =
      let answer =
        received dumps limit scan
          (r.peer c.response_timeout (dumps status_message ++ b'\n' ∷ [])) in
      let sent : request dumps limit scan r.peer status_message c ≡ (answer, c) =
        rw (now, request) in
      let (same, payload, came, ready) = ready_reply answer c c' (
        sym (
          ap
            (Exec.resume
              (λ (p : Fields) (x : LabClient). Exec.pure (is_text "READY" (get "state" p)) x))
            sent)
        ∙ h) in
      (rw (← same) now, (payload, came, ready))

  connect-cases :
      (reachable : Bool) (c : LabClient)
      → ((c' : LabClient) × (connect reachable c ≡ (ok tt, c'))
          × (is_connected c' ≡ true)
          × (c'.response_timeout ≡ c.response_timeout))
        ⊎ (connect reachable c ≡ (err (communication unreachable), close c))
  unfolding connect
  connect-cases reachable c = elim (Bool-cases (is_connected c)) [
    | inl before ↦ inl (c, rw (before, connect), before, refl)
    | inr apart ↦ elim (Bool-cases reachable) [
      | inl there ↦ inl (
        record c { has_socket = true; has_reader = true },
        rw (apart, there, connect),
        refl,
        refl,
      )
      | inr gone ↦ inr (rw (apart, gone, connect))
    ]
  ]

  attempt-IsReady :
      (r : Round) (c c' : LabClient)
      → attempt dumps limit scan r c ≡ (ok true, c')
      → (is_connected c' ≡ true) × IsReady c.response_timeout r
  unfolding attempt
  attempt-IsReady r c c' h = elim (connect-cases r.reachable c) [
    | inl (d, made, now, same) ↦
        subst (λ t. (is_connected c' ≡ true) × IsReady t r) same
          (reply_to-IsReady r d c' now
            (sym (Exec.>>=-of-ok (connect r.reachable) (λ u. reply_to r) c d made) ∙ h))
    | inr failed_ ↦
        let raised = Exec.>>=-of-err (connect r.reachable) (λ u. reply_to r) c (close c) failed_ in
        cc (raised, h)
  ]

  connect-response_timeout :
      (reachable : Bool) (c : LabClient)
      → ((connect reachable c).1).response_timeout ≡ c.response_timeout
  unfolding connect close
  connect-response_timeout reachable c = ground arith

  resume-response_timeout :
      {A B : Type 0} (f : A → Exec.Exec Raised LabClient B) (t : Float)
      (r : Result Raised A × LabClient)
      → r.1.response_timeout ≡ t
      → ((a : A) (c : LabClient) → (f a c).1.response_timeout ≡ c.response_timeout)
      → (Exec.resume f r).1.response_timeout ≡ t
  resume-response_timeout f t (ok a, c) h k = k a c ∙ h
  resume-response_timeout f t (err e, c) h k = h

  request-response_timeout :
      (r : Round) (message : Fields) (c : LabClient)
      → (request dumps limit scan r.peer message c).1.response_timeout ≡ c.response_timeout
  unfolding request
  request-response_timeout r message c = ground arith

  attempt-response_timeout :
      (r : Round) (c : LabClient)
      → (attempt dumps limit scan r c).1.response_timeout ≡ c.response_timeout
  unfolding attempt
  attempt-response_timeout r c =
      resume-response_timeout (λ u. reply_to r) c.response_timeout (connect r.reachable c)
        (connect-response_timeout r.reachable c)
        (λ u d.
          resume-response_timeout
            (λ (p : Fields) (x : LabClient). Exec.pure (is_text "READY" (get "state" p)) x)
            d.response_timeout _ (request-response_timeout r status_message d) (λ p x. refl))

  left_by-response_timeout :
      (t : Float) (tried : Result Raised Bool × LabClient)
      → tried.1.response_timeout ≡ t
      → (left_by tried).response_timeout ≡ t
  unfolding left_by close
  left_by-response_timeout t (ok b, c) h = h
  left_by-response_timeout t (err (communication why), c) h = h
  left_by-response_timeout t (err _, c) h = h

  later :
      (timeout : Float) (deadline : ℕ) (r : Round) (rs : List Round)
      (rest : Option (Result Raised (Unit {0}) × LabClient))
      → Ends timeout deadline rs rest
      → Ends timeout deadline (r ∷ rs) rest
  later timeout deadline r rs none h = tt
  later timeout deadline r rs (some (ok u, c)) h = (h.0, inr h.1)
  later timeout deadline r rs (some (err (communication why), c)) h = absurd h
  later timeout deadline r rs (some (err _, c)) h = tt

  turn-Ends :
      (deadline : ℕ) (r : Round) (rs : List Round) (c : LabClient) (b : Bool)
      (tried : Result Raised Bool × LabClient)
      (rest : Option (Result Raised (Unit {0}) × LabClient))
      → ltb r.now deadline ≡ b
      → attempt dumps limit scan r c ≡ tried
      → Ends c.response_timeout deadline rs rest
      → Ends c.response_timeout deadline (r ∷ rs) (turn_end c b tried rest)
  turn-Ends deadline r rs c false tried rest early e h = tt
  turn-Ends deadline r rs c true (ok true, c') rest early e h =
      let (connected, ready) = attempt-IsReady r c c' e in (connected, inl (early, ready))
  turn-Ends deadline r rs c true (ok false, c') rest early e h =
      later c.response_timeout deadline r rs rest h
  turn-Ends deadline r rs c true (err (communication why), c') rest early e h =
      later c.response_timeout deadline r rs rest h
  turn-Ends deadline r rs c true (err _, c') rest early e h = tt

  poll-Ends :
      (deadline : ℕ) (rs : List Round) (c : LabClient)
      → Ends c.response_timeout deadline rs (poll dumps limit scan deadline rs c)
  unfolding poll
  poll-Ends deadline [] c = tt
  poll-Ends deadline (r ∷ rs) c =
      turn-Ends deadline r rs c (ltb r.now deadline) (attempt dumps limit scan r c) _ refl refl (
        subst
          (λ t.
            Ends t deadline rs
              (poll dumps limit scan deadline rs (left_by (attempt dumps limit scan r c))))
          (left_by-response_timeout c.response_timeout (attempt dumps limit scan r c)
            (attempt-response_timeout r c))
          (poll-Ends deadline rs (left_by (attempt dumps limit scan r c))))

  -- However the network behaves, `wait_until_ready` returns only if the DUT said READY in a turn before
  -- the deadline, and then the client is connected; a LabCommunicationError never leaves it.
  pub wait_until_ready-Ends :
      (deadline_seconds poll_seconds : Float) (deadline : ℕ) (rounds : List Round) (c : LabClient)
      → Ends c.response_timeout deadline rounds
          (wait_until_ready dumps limit scan deadline_seconds poll_seconds deadline rounds c)
  unfolding wait_until_ready
  wait_until_ready-Ends deadline_seconds poll_seconds deadline rounds c =
      elim (Bool-cases (is_nonpositive deadline_seconds || is_nonpositive poll_seconds)) [
        | inl wrong ↦ rw (wrong, wait_until_ready) tt
        | inr right ↦ rw (right, wait_until_ready) (poll-Ends deadline rounds c)
      ]
