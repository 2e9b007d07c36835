-- ===== src/Simulator/Protocol.antt =====
-- `build_response` of simulator/simulator.py, and what its answers tell a client.
use flight_test_lab.Prelude.{
  ◌≡◌, ◌≢◌, Bool-cases, ◌||◌, refl, ◌↔◌, inl, inr, Bool, false, arith, str_eq, eq_iff,
  if◌then◌else◌,
}
use flight_test_lab.Json.{Json, Fields, null, str, obj, end, field, get, member, is_null}

abbrev invalid_message_type : Fields
invalid_message_type = field "status" (str "error") (
    field "error_code" (str "INVALID_MESSAGE_TYPE")
      (field "message" (str "Request must be a JSON object") end))

abbrev missing_command : Json → Fields
missing_command sequence =
    field "status" (str "error")
      (field "error_code" (str "MISSING_COMMAND") (field "sequence" sequence end))

abbrev ready : Json → Fields
ready sequence =
    field "status" (str "ok") (field "state" (str "READY") (field "sequence" sequence end))

abbrev unsupported_command : Json → Json → Fields
unsupported_command sequence command = field "status" (str "error") (
    field "error_code" (str "UNSUPPORTED_COMMAND")
      (field "command" command (field "sequence" sequence end)))

-- `command == "status"`
abbrev pub is_status : Json → Bool
is_status (str s) = str_eq s "status"
is_status _ = false

abbrev respond : Json → Json → Fields
respond sequence command =
    if is_null command
    then missing_command sequence
    else if is_status command
    then ready sequence
    else unsupported_command sequence command

unfoldable pub build_response : Json → Fields
build_response (obj fs) = respond (get "sequence" fs) (get "command" fs)
build_response _ = invalid_message_type

-- The request that the protocol supports: an object whose command is the text `status`.
abbrev pub IsStatusRequest : Json → Type 0
IsStatusRequest (obj fs) = get "command" fs ≡ str "status"
IsStatusRequest _ = ⊥

error_ne_ok : str "error" ≢ str "ok"
error_ne_ok = ground (arith, eq_iff "error" "ok")

respond_ok :
    (sequence command : Json)
    → (get "status" (respond sequence command) ≡ str "ok") ↔ (command ≡ str "status")
unfolding member
respond_ok sequence null = (λ h. absurd (error_ne_ok h), λ h. cc)
respond_ok sequence (str s) = elim (Bool-cases (str_eq s "status")) [
  | inl same ↦ (λ _. ground (arith, eq_iff s "status"), λ _. rw same)
  | inr other ↦
      (λ h. absurd (error_ne_ok (rw other at h)), λ h. absurd (ground (arith, eq_iff s "status")))
]
respond_ok sequence _ = (λ h. absurd (error_ne_ok h), λ h. cc)

-- The answer is `ok` exactly for a status request: no other command, type or shape is taken for one.
pub build_response_ok :
    (message : Json) → (get "status" (build_response message) ≡ str "ok") ↔ IsStatusRequest message
unfolding build_response member
build_response_ok (obj fs) = respond_ok (get "sequence" fs) (get "command" fs)
build_response_ok null = (error_ne_ok, absurd)
build_response_ok _ = (error_ne_ok, absurd)

-- The error code that a command calls for; `null` for the supported one.
abbrev pub code_for : Json → Json
code_for command =
    if is_null command
    then str "MISSING_COMMAND"
    else if is_status command
    then null
    else str "UNSUPPORTED_COMMAND"

-- The command that an answer names.
abbrev pub named_command : Json → Json
named_command command = if is_null command || is_status command then null else command

respond_fields :
    (sequence command : Json)
    → (get "sequence" (respond sequence command) ≡ sequence)
      × (get "error_code" (respond sequence command) ≡ code_for command)
      × (get "command" (respond sequence command) ≡ named_command command)
unfolding member
respond_fields sequence null = (refl, refl, refl)
respond_fields sequence (str s) = elim (Bool-cases (str_eq s "status")) [
  | inl same ↦ rw same (refl, refl, refl)
  | inr other ↦ rw other (refl, refl, refl)
]
respond_fields sequence _ = (refl, refl, refl)

-- Every object is answered with the sequence that it came with, `null` if it had none, and with the
-- error code that its command calls for; the answer names the command exactly if it is unsupported.
pub build_response-obj :
    (fs : Fields)
    → (get "sequence" (build_response (obj fs)) ≡ get "sequence" fs)
      × (get "error_code" (build_response (obj fs)) ≡ code_for (get "command" fs))
      × (get "command" (build_response (obj fs)) ≡ named_command (get "command" fs))
unfolding build_response
build_response-obj fs = respond_fields (get "sequence" fs) (get "command" fs)
