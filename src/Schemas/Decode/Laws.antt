-- ===== src/Schemas/Decode/Laws.antt =====
-- Which bodies the request models accept.
use mathlib.Core.Path.{subst}
use taskpilot_assessment.Prelude.{
  ◌≡◌, ◌↔◌, ◌⊎◌, ◌≤◌, refl, String, Option, none, some, List, [], ◌∷◌, arith, ◌==◌, string_eq,
  eq_iff, Option-cases,
}
use taskpilot_assessment.Errors.{ErrorItem, Result, ok, Result-cases}
use taskpilot_assessment.Config.{Settings}
use taskpilot_assessment.Json.{Json, str, obj, Fields, end, get}
use taskpilot_assessment.Models.{TaskStatus, pending, running, succeeded, failed, dead, value}
use taskpilot_assessment.Schemas.{
  TaskCreate, TaskCreateFields, Datetime, check_title, validate_payload, normalise_scheduled_at,
  check_idempotency_key, validate_create,
}
use taskpilot_assessment.Validation.{check}
use taskpilot_assessment.Schemas.Laws.{validate_create-fields}
use taskpilot_assessment.Schemas.Decode.Typed.{
  HasOnly, extras-HasOnly, HasOnly-extras, Nullable, title_field_iff, payload_field_iff,
  scheduled_at_iff, idempotency_key_iff, permit_iff, small_payload,
}
use taskpilot_assessment.Schemas.Decode.{
  permit, required, extras, is_field, title_field, payload_field, scheduled_at_field,
  idempotency_key_field, create_body, read_status, parse_status, settle_status, status_body,
}

-- The JSON object has the fields of the request, each of its type or left out for its default, and no
-- other field.
pub record Conforms (parse : Json → Result Datetime) (fs : Fields) (raw : TaskCreateFields)
    : Type 0 where
  pub only : HasOnly is_field fs
  pub title : get "title" fs ≡ some (str raw.title)
  pub payload :
      ((get "payload" fs ≡ none) × (raw.payload ≡ end))
      ⊎ (get "payload" fs ≡ some (obj raw.payload))
  pub scheduled_at : Nullable (λ j v. parse j ≡ ok v) (get "scheduled_at" fs) raw.scheduled_at
  pub idempotency_key : Nullable (λ j k. j ≡ str k) (get "idempotency_key" fs) raw.idempotency_key

-- A request is accepted where no field is undeclared and each of the four is accepted.
create_body-fields :
    (s : Settings) (parse : Json → Result Datetime) (fs : Fields) (body : TaskCreate)
    → (create_body s parse (obj fs) ≡ ok body) ↔ (
        (extras is_field fs ≡ [])
        × (title_field s (get "title" fs) ≡ ok body.title)
        × (payload_field s (get "payload" fs) ≡ ok body.payload)
        × (scheduled_at_field parse (get "scheduled_at" fs) ≡ ok body.scheduled_at)
        × (idempotency_key_field (get "idempotency_key" fs) ≡ ok body.idempotency_key))
unfolding create_body
create_body-fields s parse fs body = permit_iff _ _ _ _ _ body

validate_create-of_fields :
    (s : Settings) (raw : TaskCreateFields) (body : TaskCreate)
    → (check_title s raw.title ≡ ok body.title)
    → (validate_payload s raw.payload ≡ ok body.payload)
    → (normalise_scheduled_at raw.scheduled_at ≡ ok body.scheduled_at)
    → (check_idempotency_key raw.idempotency_key ≡ ok body.idempotency_key)
    → validate_create s raw ≡ ok body
unfolding validate_create
validate_create-of_fields s raw body title payload at key = rw (title, payload, at, key) refl

-- A body is accepted exactly when it is a JSON object that has the fields of a request and no other,
-- each of its type, and the validators accept these; a field that is left out or null has its default.
-- The bound of a payload leaves room for the empty one.
pub create_body_lem :
    (s : Settings) (parse : Json → Result Datetime) (j : Json) (body : TaskCreate)
    → 2 ≤ s.max_payload_bytes
    → (create_body s parse j ≡ ok body) ↔ (
        (fs : Fields) × (raw : TaskCreateFields) × (j ≡ obj fs)
        × Conforms parse fs raw
        × (validate_create s raw ≡ ok body))
unfolding create_body
create_body_lem s parse (obj fs) body room =
    let small : validate_payload s end ≡ ok end = small_payload s room in
    let accepts = create_body-fields s parse fs body in
    let title = title_field_iff s (get "title" fs) body.title in
    let payload = payload_field_iff s (get "payload" fs) body.payload small in
    let at = scheduled_at_iff parse (get "scheduled_at" fs) body.scheduled_at in
    let key = idempotency_key_iff (get "idempotency_key" fs) body.idempotency_key in
    (
      λ h.
          let (declared, t, p, a, k) = accepts.0 h in
          let (rt, et, t') = title.0 t in
          let (rp, ep, p') = payload.0 p in
          let (ra, ea, a') = at.0 a in
          let (rk, ek, k') = key.0 k in
          let raw : TaskCreateFields = record {
            title = rt;
            payload = rp;
            scheduled_at = ra;
            idempotency_key = rk;
          } in
          (
            fs,
            raw,
            refl,
            record {
              only = extras-HasOnly is_field fs declared;
              title = et;
              payload = ep;
              scheduled_at = ea;
              idempotency_key = ek;
            },
            validate_create-of_fields s raw body t' p' a' k',
          ),
      λ (gs, raw, same, c, valid).
          let (t, p, a, k) = validate_create-fields s raw body valid in
          let e : gs ≡ fs = ground arith in
          let c' : Conforms parse fs raw = subst (λ x. Conforms parse x raw) e c in
          accepts.1 (
            HasOnly-extras is_field fs c'.only,
            title.1 (raw.title, c'.title, t),
            payload.1 (raw.payload, c'.payload, p),
            at.1 (raw.scheduled_at, c'.scheduled_at, a),
            key.1 (raw.idempotency_key, c'.idempotency_key, k),
          ),
    )
create_body_lem s parse j body room = (λ h. ground arith, λ (fs, raw, e, c, valid). ground arith)

parse_status-value : (st : TaskStatus) → parse_status (value st) ≡ some st
parse_status-value pending = refl
parse_status-value running = refl
parse_status-value succeeded = refl
parse_status-value failed = refl
parse_status-value dead = refl

parse_status_iff : (x : String) (st : TaskStatus) → (parse_status x ≡ some st) ↔ (x ≡ value st)
parse_status_iff x st = (
  λ h. ground (
    arith,
    eq_iff x "pending",
    eq_iff x "running",
    eq_iff x "succeeded",
    eq_iff x "failed",
    eq_iff x "dead",
  ),
  λ h. rw h (parse_status-value st),
)

read_status_iff :
    (o : Option Json) (st : TaskStatus)
    → (required read_status o ≡ ok st) ↔ (o ≡ some (str (value st)))
read_status_iff none st = ground arith
read_status_iff (some (str x)) st =
    ground (arith, parse_status_iff x st, Option-cases (parse_status x))
read_status_iff (some j) st = ground arith

settle_iff :
    (es : List ErrorItem) (r : Result TaskStatus) (st : TaskStatus)
    → (settle_status (permit es (check "status" r)) ≡ ok st) ↔ ((es ≡ []) × (r ≡ ok st))
settle_iff [] r st = ground (arith, Result-cases r)
settle_iff (e ∷ es) r st = (λ h. ground (arith, Result-cases r), λ (x, h). ground arith)

-- A body of a change of status is accepted exactly when it is a JSON object with the one key `status`
-- and its value is the text of a status; that status is what is read.
pub status_body_lem :
    (j : Json) (st : TaskStatus)
    → (status_body j ≡ ok st) ↔ (
        (fs : Fields) × (j ≡ obj fs)
        × HasOnly (λ k. k == "status") fs
        × (get "status" fs ≡ some (str (value st))))
unfolding status_body
status_body_lem (obj fs) st =
    let settled =
      settle_iff (extras (λ k. k == "status") fs) (required read_status (get "status" fs)) st in
    let reads = read_status_iff (get "status" fs) st in
    (
      λ h.
          let (declared, r) = settled.0 h in
          (fs, refl, extras-HasOnly (λ k. k == "status") fs declared, reads.0 r),
      λ (gs, same, only, there).
          let e : gs ≡ fs = ground arith in
          settled.1 (
            HasOnly-extras (λ k. k == "status") fs (subst (HasOnly (λ k. k == "status")) e only),
            reads.1 (rw e at there),
          ),
    )
status_body_lem j st = (λ h. ground arith, λ (fs, e, only, there). ground arith)
