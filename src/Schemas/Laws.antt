-- ===== src/Schemas/Laws.antt =====
-- What a validated request to create a task promises.
use taskpilot_assessment.Prelude.{
  ℕ, ◌⊎◌, ◌≤◌, ◌<◌, ◌+◌, String, ◌≡◌, refl, true, false, Option, none, some, arith, length_text,
  strip, strip_lem, has_text, starts_bare, ends_bare, is_empty,
}
use taskpilot_assessment.Errors.{ok, err, overflow_error, Result-cases}
use taskpilot_assessment.Config.{Settings}
use taskpilot_assessment.Json.{dumps_size, obj}
use taskpilot_assessment.Time.{max_time}
use taskpilot_assessment.Schemas.{
  TaskCreate, TaskCreateFields, Datetime, ahead, behind, check_title, validate_payload,
  normalise_scheduled_at, normalise, check_idempotency_key, validate_create,
}

has_text-length : (s : String) → has_text s ≡ true → 1 ≤ length_text s
has_text-length String.[] h = ground arith
has_text-length (String.◌∷◌ c s) h = omega arith

is_empty-length : (s : String) → is_empty s ≡ false → 1 ≤ length_text s
is_empty-length String.[] h = ground arith
is_empty-length (String.◌∷◌ c s) h = omega arith

-- What the service relies on of a request body.
pub record IsSound (s : Settings) (raw : TaskCreateFields) (body : TaskCreate) : Type 0 where
  pub title_stripped : body.title ≡ strip raw.title
  pub title_bounds : (1 ≤ length_text body.title) × (length_text body.title ≤ s.title_max_length)
  pub title_bare : (starts_bare body.title ≡ true) × (ends_bare body.title ≡ true)
  pub payload_kept :
      (body.payload ≡ raw.payload) × (dumps_size (obj body.payload) ≤ s.max_payload_bytes)
  pub schedule : normalise_scheduled_at raw.scheduled_at ≡ ok body.scheduled_at
  pub key_kept : body.idempotency_key ≡ raw.idempotency_key
  pub key_bound : (k : String) → body.idempotency_key ≡ some k → length_text k ≤ 255

check_title_lem :
    (s : Settings) (title t : String)
    → check_title s title ≡ ok t
    → (t ≡ strip title) × (1 ≤ length_text t) × (length_text t ≤ s.title_max_length)
unfolding check_title
check_title_lem s title t e = ground (arith, strip_lem title, is_empty-length (strip title))

-- `validate_create` accepts exactly where the four fields are accepted.
pub validate_create-fields :
    (s : Settings) (raw : TaskCreateFields) (body : TaskCreate)
    → validate_create s raw ≡ ok body
    → (check_title s raw.title ≡ ok body.title)
      × (validate_payload s raw.payload ≡ ok body.payload)
      × (normalise_scheduled_at raw.scheduled_at ≡ ok body.scheduled_at)
      × (check_idempotency_key raw.idempotency_key ≡ ok body.idempotency_key)
unfolding validate_create
validate_create-fields s raw body e = ground (
  arith,
  Result-cases (check_title s raw.title),
  Result-cases (validate_payload s raw.payload),
  Result-cases (normalise_scheduled_at raw.scheduled_at),
  Result-cases (check_idempotency_key raw.idempotency_key),
)

pub validate_create_lem :
    (s : Settings) (raw : TaskCreateFields) (body : TaskCreate)
    → validate_create s raw ≡ ok body
    → IsSound s raw body
unfolding validate_payload check_idempotency_key
validate_create_lem s raw body e =
    let (title, payload, at, key) = validate_create-fields s raw body e in
    let (stripped, at_least, at_most) = check_title_lem s raw.title body.title title in
    let (shorter, bare_start, bare_end, bare) = strip_lem raw.title in
    record {
      title_stripped = stripped;
      title_bounds = (at_least, at_most);
      title_bare = (rw stripped bare_start, rw stripped bare_end);
      payload_kept = (ground arith, ground arith);
      schedule = at;
      key_kept = ground arith;
      key_bound = λ k h. ground arith;
    }

check_idempotency_key-short :
    (key : Option String)
    → ((k : String) → key ≡ some k → length_text k ≤ 255)
    → check_idempotency_key key ≡ ok key
unfolding check_idempotency_key
check_idempotency_key-short none h = refl
check_idempotency_key-short (some k) h = ground (arith, h k refl)

check_title-accepts :
    (s : Settings) (title : String)
    → has_text title ≡ true
    → length_text title ≤ s.title_max_length
    → check_title s title ≡ ok (strip title)
unfolding check_title
check_title-accepts s title text short = ground (arith, strip_lem title, has_text-length title)

-- A request is accepted when its title has some text and at most the maximal length as sent, its payload
-- and its key are within their limits, and its time can be written in UTC.
validate_create_accepts :
    (s : Settings) (raw : TaskCreateFields) (at : Option ℕ)
    → has_text raw.title ≡ true
    → length_text raw.title ≤ s.title_max_length
    → dumps_size (obj raw.payload) ≤ s.max_payload_bytes
    → normalise_scheduled_at raw.scheduled_at ≡ ok at
    → ((k : String) → raw.idempotency_key ≡ some k → length_text k ≤ 255)
    → validate_create s raw
      ≡ ok (record {
        title = strip raw.title;
        payload = raw.payload;
        scheduled_at = at;
        idempotency_key = raw.idempotency_key;
      })
unfolding validate_create validate_payload
validate_create_accepts s raw at text short small time key =
    let title = check_title-accepts s raw.title text short in
    let key' = check_idempotency_key-short raw.idempotency_key key in
    let payload : validate_payload s raw.payload ≡ ok raw.payload = ground arith in
    rw (title, payload, time, key') refl

-- A time with a zone whose UTC equivalent lies outside of the years 1 to 9999 is not refused as invalid:
-- the OverflowError of `astimezone` goes through the validation, whether the other fields are accepted
-- or refused.
validate_create_overflow :
    (s : Settings) (raw : TaskCreateFields) (v : Datetime) (offset : ℕ)
    → raw.scheduled_at ≡ some v
    → ((v.zone ≡ behind offset) × (max_time < v.clock + offset))
      ⊎ ((v.zone ≡ ahead offset) × (v.clock < offset))
    → validate_create s raw ≡ err overflow_error
unfolding validate_create check_title validate_payload normalise_scheduled_at normalise
validate_create_overflow s raw v offset e out =
    let late : normalise_scheduled_at raw.scheduled_at ≡ err overflow_error = ground arith in
    rw late (ground arith)
