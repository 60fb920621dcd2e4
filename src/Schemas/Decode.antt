-- ===== src/Schemas/Decode.antt =====
-- app/schemas.py: the request models from the JSON of the body on, with the types of their fields, their
-- defaults and `extra="forbid"`. A default is taken without validation. How pydantic reads a `datetime`
-- is an argument.
pub mod Typed
pub mod Laws
use taskpilot_assessment.Prelude.{
  ℕ, ◌++◌, String, Bool, ◌||◌, Option, none, some, List, [], ◌∷◌, ◌==◌, string_eq, if◌then◌else◌,
}
use taskpilot_assessment.Errors.{ErrorItem, Result, ok, err, request_validation_error, ◌>>=◌}
use taskpilot_assessment.Config.{Settings}
use taskpilot_assessment.Json.{Json, null, str, obj, Fields, end, field, get}
use taskpilot_assessment.Models.{TaskStatus, pending, running, succeeded, failed, dead, value}
use taskpilot_assessment.Validation.{Checked, valid, rejected, raised, check, both, invalid}
use taskpilot_assessment.Schemas.{
  TaskCreate, Datetime, check_title, validate_payload, normalise_scheduled_at,
  check_idempotency_key, some_result, resolve,
}

abbrev pub read_str : Json → Result String
read_str (str s) = ok s
read_str _ = invalid "Input should be a valid string"

abbrev pub read_dict : Json → Result Fields
read_dict (obj fs) = ok fs
read_dict _ = invalid "Input should be a valid dictionary"

-- `T | None`
abbrev pub or_null : {A : Type 0} → (Json → Result A) → Json → Result (Option A)
or_null read null = ok none
or_null read j = some_result (read j)

-- A field without a default, and one with a default.
abbrev pub required : {A : Type 0} → (Json → Result A) → Option Json → Result A
required read none = invalid "Field required"
required read (some j) = read j

abbrev pub with_default : {A : Type 0} → A → (Json → Result A) → Option Json → Result A
with_default a read none = ok a
with_default a read (some j) = read j

-- The keys that the model does not declare.
abbrev pub extras : (String → Bool) → Fields → List ErrorItem
extras declared end = []
extras declared (field k v fs) =
    if declared k
    then extras declared fs
    else record { loc = "body" ∷ k ∷ []; msg = "Extra inputs are not permitted" }
      ∷ extras declared fs

abbrev pub permit : {A : Type 0} → List ErrorItem → Checked A → Checked A
permit [] c = c
permit (e ∷ es) (valid a) = rejected (e ∷ es)
permit (e ∷ es) (rejected fs) = rejected (fs ++ (e ∷ es))
permit (e ∷ es) (raised x) = raised x

-- `model_config = ConfigDict(extra="forbid")`
abbrev pub forbid : {A : Type 0} → (String → Bool) → Fields → Checked A → Checked A
forbid declared fs c = permit (extras declared fs) c

abbrev pub no_object : {A : Type 0} → Result A
no_object = err (
    request_validation_error (
      record {
        loc = "body" ∷ [];
        msg = "Input should be a valid dictionary or object to extract fields from";
      }
      ∷ []))

-- The fields of `TaskCreate`.
abbrev pub is_field : String → Bool
is_field k = k == "title" || (k == "payload" || (k == "scheduled_at" || k == "idempotency_key"))

abbrev pub title_field : Settings → Option Json → Result String
title_field s = required (λ j. do t ← read_str j; check_title s t)

abbrev pub payload_field : Settings → Option Json → Result Fields
payload_field s = with_default end (λ j. do p ← read_dict j; validate_payload s p)

abbrev pub scheduled_at_field : (Json → Result Datetime) → Option Json → Result (Option ℕ)
scheduled_at_field parse = with_default none (λ j. do v ← or_null parse j; normalise_scheduled_at v)

abbrev pub idempotency_key_field : Option Json → Result (Option String)
idempotency_key_field = with_default none (λ j. do k ← or_null read_str j; check_idempotency_key k)

-- `TaskCreate`, for the body of POST /tasks.
unfoldable pub create_body : Settings → (Json → Result Datetime) → Json → Result TaskCreate
create_body s parse (obj fs) = resolve (
    forbid is_field fs (
      both
        (both (check "title" (title_field s (get "title" fs)))
          (check "payload" (payload_field s (get "payload" fs))))
        (both (check "scheduled_at" (scheduled_at_field parse (get "scheduled_at" fs)))
          (check "idempotency_key" (idempotency_key_field (get "idempotency_key" fs))))))
create_body s parse _ = no_object

-- The member with the given value.
abbrev pub parse_status : String → Option TaskStatus
parse_status x =
    if x == value pending
    then some pending
    else if x == value running
    then some running
    else if x == value succeeded
    then some succeeded
    else if x == value failed
    then some failed
    else if x == value dead
    then some dead
    else none

abbrev pub or_invalid : {A : Type 0} → String → Option A → Result A
or_invalid message none = invalid message
or_invalid message (some a) = ok a

abbrev pub read_status : Json → Result TaskStatus
read_status (str x) =
    or_invalid "Input should be 'pending', 'running', 'succeeded', 'failed' or 'dead'"
      (parse_status x)
read_status _ = invalid "Input should be 'pending', 'running', 'succeeded', 'failed' or 'dead'"

abbrev pub settle_status : Checked TaskStatus → Result TaskStatus
settle_status (valid status) = ok status
settle_status (rejected es) = err (request_validation_error es)
settle_status (raised e) = err e

-- `TaskStatusUpdate`, for the body of PATCH /tasks/{task_id}/status.
unfoldable pub status_body : Json → Result TaskStatus
status_body (obj fs) =
    settle_status
      (forbid (λ k. k == "status") fs (check "status" (required read_status (get "status" fs))))
status_body _ = no_object
