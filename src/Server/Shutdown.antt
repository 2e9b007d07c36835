-- ===== src/Server/Shutdown.antt =====
-- What learning/server/app.py does with a check once `begin_shutdown` was called.
use flight_test_lab.Prelude.{◌≡◌, refl, String, true, Option-cases, Bool-cases, inl, inr, str_eq}
use flight_test_lab.Dict
use flight_test_lab.Result.{Result, ok, err}
use flight_test_lab.Json.{Json, Fields, str, get, member}
use flight_test_lab.Curriculum.{Lesson, Curriculum, text}
use flight_test_lab.Progress.{Raised}
use flight_test_lab.Validators.{Registry}
use flight_test_lab.Server.Thread.{Shared, Thread, run, ◌>>=◌}
use flight_test_lab.Server.Payload.{Reply, is_error}
use flight_test_lab.Server.Steps.{with_lesson, if_available}
use flight_test_lab.Server.Checks.{run_check, check_block, handle_validate, verify_block, args_of}

-- `begin_shutdown`
unfoldable pub begin_shutdown : Shared → Shared
begin_shutdown p = record p { shutting_down = true }

-- An error answer, and nothing changed.
abbrev pub IsTurnedAway : Shared → Result Raised Reply × Shared → Type 0
IsTurnedAway p (ok reply, q) = (is_error reply ≡ true) × (q ≡ p)
IsTurnedAway p (err e, q) = ⊥

module _ (checks : Registry) (now : String) (p : Shared) where
  abbrev down : Shared
  down = begin_shutdown p

  run_check-down :
      (l : Lesson) (block_id : String) (b args : Fields)
      → IsTurnedAway down (run (run_check checks now l block_id b args) down)
  unfolding run_check run ◌>>=◌ begin_shutdown
  run_check-down l block_id b args = (refl, refl)

  check_block-down :
      (l : Lesson) (block_id : String) (b : Fields)
      → IsTurnedAway down (run (check_block checks now l block_id b) down)
  unfolding check_block run
  check_block-down l block_id b = elim (Option-cases (args_of (member "args" b))) [
    | inl bad ↦ rw (bad, check_block) (refl, refl)
    | inr (args, good) ↦ rw (good, check_block) (run_check-down l block_id b args)
  ]

  available-down :
      (l : Lesson) (t : Thread Reply)
      → IsTurnedAway down (run t down)
      → IsTurnedAway down (run (if_available l t) down)
  unfolding run
  available-down l t h = elim (Bool-cases (str_eq l.status "available")) [
    | inl offered ↦ rw (offered, if_available) h
    | inr shut ↦ rw (shut, if_available) (refl, refl)
  ]

  with_lesson-down :
      (c : Curriculum) (id : Json) (handler : Lesson → Thread Reply)
      → ((l : Lesson) → IsTurnedAway down (run (handler l) down))
      → IsTurnedAway down (run (with_lesson c id handler) down)
  unfolding run
  with_lesson-down c (str id) handler h = elim (Option-cases (Dict.get id c.lessons)) [
    | inl unknown ↦ rw (unknown, with_lesson) (refl, refl)
    | inr (l, known) ↦ rw (known, with_lesson) (h l)
  ]
  with_lesson-down c _ handler h = (refl, refl)

  -- Once the shutdown has begun, a request to run a check is answered with an error, whatever it asks
  -- for: no check is recorded, and nothing changes.
  pub handle_validate-down :
      (c : Curriculum) (body : Fields)
      → IsTurnedAway (begin_shutdown p) (run (handle_validate checks c now body) (begin_shutdown p))
  unfolding handle_validate run
  handle_validate-down c body = with_lesson-down c (get "lesson_id" body) _ λ l.
      available-down l _ (elim (Option-cases (verify_block l (get "block_id" body))) [
        | inl unknown ↦ rw unknown (refl, refl)
        | inr (b, known) ↦ rw known (check_block-down l (text (get "block_id" body)) b)
      ])
