-- ===== src/Schemas.antt =====
-- app/schemas.py: the validators of the request models, from the typed fields on, and the response
-- models. `Schemas.Decode` starts from the JSON of a body. What pydantic writes around the message of an
-- error is left out.
pub mod Laws
pub mod Decode
use taskpilot_assessment.Prelude.{
  ℕ, append_text, decimal, ◌+◌, ◌-◌, String, Option, none, some, List, [], ◌∷◌, ◌++◌, ltb, leb,
  if◌then◌else◌, length_text, strip, is_empty,
}
use taskpilot_assessment.Errors.{
  Exception, ErrorItem, Result, ok, err, value_error, overflow_error, request_validation_error,
}
use taskpilot_assessment.Config.{Settings}
use taskpilot_assessment.Json.{Fields, Json, obj, dumps_size}
use taskpilot_assessment.Models.{Task, TaskStatus}
use taskpilot_assessment.Time.{max_time}
use taskpilot_assessment.Validation.{Checked, valid, rejected, raised, check, both, invalid}

pub record TaskCreate : Type 0 where
  pub title : String
  pub payload : Fields
  pub scheduled_at : Option ℕ
  pub idempotency_key : Option String

-- A `datetime` as it is parsed: microseconds since `datetime.min` on its own clock, and where it has a
-- time zone, how far that is ahead of or behind UTC.
pub data Zone : Type 0 where
  naive : Zone
  ahead behind : ℕ → Zone

pub record Datetime : Type 0 where
  pub clock : ℕ
  pub zone : Zone

-- The typed fields of a request, before the constraints and the validators.
pub record TaskCreateFields : Type 0 where
  pub title : String
  pub payload : Fields
  pub scheduled_at : Option Datetime
  pub idempotency_key : Option String

unfoldable at_most : ℕ → String
unfolding decimal
at_most n = append_text "String should have at most " (append_text (decimal n) " characters")

-- `TitleStr`, then `_strip_title`.
unfoldable pub check_title : Settings → String → Result String
unfolding at_most
check_title s title =
    if ltb (length_text title) 1
    then invalid "String should have at least 1 character"
    else if ltb s.title_max_length (length_text title)
    then invalid (at_most s.title_max_length)
    else if is_empty (strip title)
    then invalid "title must not be blank"
    else ok (strip title)

-- `_validate_payload`
unfoldable pub validate_payload : Settings → Fields → Result Fields
unfolding dumps_size decimal
validate_payload s payload =
    if ltb s.max_payload_bytes (dumps_size (obj payload))
    then invalid (
        append_text "payload exceeds maximum size of "
          (append_text (decimal s.max_payload_bytes) " bytes"))
    else ok payload

-- `v.astimezone(UTC)` and `v.replace(tzinfo=UTC)`
unfoldable pub normalise : Datetime → Result ℕ
normalise v = elim v.zone [
  | naive ↦ ok v.clock
  | ahead offset ↦ if ltb v.clock offset then err overflow_error else ok (v.clock - offset)
  | behind offset ↦
      if leb (v.clock + offset) max_time then ok (v.clock + offset) else err overflow_error
]

abbrev pub some_result : {A : Type 0} → Result A → Result (Option A)
some_result (ok a) = ok (some a)
some_result (err e) = err e

-- `_normalise_scheduled_at`
unfoldable pub normalise_scheduled_at : Option Datetime → Result (Option ℕ)
unfolding normalise
normalise_scheduled_at none = ok none
normalise_scheduled_at (some v) = some_result (normalise v)

-- `Field(default=None, max_length=255)`
unfoldable pub check_idempotency_key : Option String → Result (Option String)
unfolding at_most
check_idempotency_key none = ok none
check_idempotency_key (some key) =
    if ltb 255 (length_text key) then invalid (at_most 255) else ok (some key)

abbrev pub resolve : Checked ((String × Fields) × (Option ℕ × Option String)) → Result TaskCreate
resolve (valid ((title, payload), (at, key))) =
    ok (record { title = title; payload = payload; scheduled_at = at; idempotency_key = key })
resolve (rejected es) = err (request_validation_error es)
resolve (raised e) = err e

-- The four fields of a request, in their order.
unfoldable pub validate_create : Settings → TaskCreateFields → Result TaskCreate
unfolding check_title validate_payload normalise_scheduled_at check_idempotency_key
validate_create s raw = resolve (
    both
      (both (check "title" (check_title s raw.title))
        (check "payload" (validate_payload s raw.payload)))
      (both (check "scheduled_at" (normalise_scheduled_at raw.scheduled_at))
        (check "idempotency_key" (check_idempotency_key raw.idempotency_key))))

pub record TaskRead : Type 0 where
  pub id : ℕ
  pub title : String
  pub payload : Json
  pub idempotency_key : Option String
  pub scheduled_at : ℕ
  pub status : TaskStatus
  pub retry_count : ℕ
  pub last_error : Option String
  pub created_at : ℕ
  pub updated_at : ℕ

-- `TaskRead.model_validate(task)`
abbrev pub task_read : Task → TaskRead
task_read t = record {
  id = t.id;
  title = t.title;
  payload = t.payload;
  idempotency_key = t.idempotency_key;
  scheduled_at = t.scheduled_at;
  status = t.status;
  retry_count = t.retry_count;
  last_error = t.last_error;
  created_at = t.created_at;
  updated_at = t.updated_at;
}

pub record TaskList : Type 0 where
  pub items : List TaskRead
  pub total : ℕ
  pub limit : ℕ
  pub offset : ℕ
