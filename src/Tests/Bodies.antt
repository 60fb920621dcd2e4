-- ===== src/Tests/Bodies.antt =====
-- Bodies of requests, with times given in seconds since 1970.
use taskpilot_assessment.Prelude.{
  ◌≡◌, ◌↔◌, ◌+◌, refl, none, some, List, [], ◌∷◌, arith, strip, decimal, ◌==◌, string_eq,
}
use taskpilot_assessment.Errors.{ErrorItem, Result, ok, err, request_validation_error}
use taskpilot_assessment.Config.{default_settings}
use taskpilot_assessment.Json.{Json, null, int, str, obj, Fields, end, field, get, dumps_size}
use taskpilot_assessment.Models.{value, succeeded}
use taskpilot_assessment.Time.{seconds}
use taskpilot_assessment.Validation.{invalid}
use taskpilot_assessment.Schemas.{
  TaskCreate, TaskCreateFields, Datetime, ahead, check_title, check_idempotency_key,
  validate_create, normalise_scheduled_at,
}
use taskpilot_assessment.Schemas.Decode.{create_body, status_body}
use taskpilot_assessment.Schemas.Decode.Typed.{HasOnly}
use taskpilot_assessment.Schemas.Decode.Laws.{Conforms, create_body_lem, status_body_lem}

abbrev parse : Json → Result Datetime
parse (int n) = ok (record { clock = seconds (62135596800 + n); zone = ahead 0 })
parse _ = invalid "Input should be a valid datetime"

abbrev body : Json
body = obj (
    field "title" (str " send receipt ")
      (field "scheduled_at" (int 1000) (field "idempotency_key" null end)))

abbrev sent : TaskCreate
sent = record {
  title = "send receipt";
  payload = end;
  scheduled_at = some (seconds 62135597800);
  idempotency_key = none;
}

accepted : create_body default_settings parse body ≡ ok sent
unfolding create_body get dumps_size decimal strip normalise_scheduled_at check_title
    check_idempotency_key
accepted = refl

create_body_lem_example : (create_body default_settings parse body ≡ ok sent) ↔ (
    (fs : Fields) × (raw : TaskCreateFields) × (body ≡ obj fs)
    × Conforms parse fs raw
    × (validate_create default_settings raw ≡ ok sent))
create_body_lem_example = create_body_lem default_settings parse body sent (omega arith)

-- An undeclared key and a missing title, one message for each.
abbrev wrong_errors : List ErrorItem
wrong_errors =
    record { loc = "body" ∷ "title" ∷ []; msg = "Field required" }
    ∷ record { loc = "body" ∷ "colour" ∷ []; msg = "Extra inputs are not permitted" }
    ∷ []

wrong :
    create_body default_settings parse (obj (field "colour" (int 1) end))
    ≡ err (request_validation_error wrong_errors)
unfolding create_body get
wrong = refl

abbrev change : Json
change = obj (field "status" (str "succeeded") end)

changed : status_body change ≡ ok succeeded
unfolding status_body get
changed = refl

status_body_lem_example : (status_body change ≡ ok succeeded) ↔ (
    (fs : Fields) × (change ≡ obj fs)
    × HasOnly (λ k. k == "status") fs
    × (get "status" fs ≡ some (str (value succeeded))))
status_body_lem_example = status_body_lem change succeeded
