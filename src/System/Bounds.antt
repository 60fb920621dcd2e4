-- ===== src/System/Bounds.antt =====
-- The bounds of a row, and that each write of the program keeps them.
use taskpilot_assessment.Prelude.{
  ℕ, ◌≤◌, ◌≡◌, refl, String, Option, none, some, arith, length_text, length_text-take_text,
}
use taskpilot_assessment.Errors.{Result, ok, err}
use taskpilot_assessment.Config.{Settings}
use taskpilot_assessment.Models.{Task, status_eq, option_eq}
use taskpilot_assessment.Schemas.{TaskCreate, TaskCreateFields, validate_create}
use taskpilot_assessment.Schemas.Laws.{validate_create_lem}
use taskpilot_assessment.Database.{merge}
use taskpilot_assessment.Service.{new_task}
use taskpilot_assessment.Worker.Failure.Laws.{failed_task}
use taskpilot_assessment.Worker.Process.{failure_text}
use taskpilot_assessment.Worker.Process.Laws.{outcome_task}

-- The length of a column that may be null.
abbrev pub size : Option String → ℕ
size none = 0
size (some t) = length_text t

-- The retries are at most the maximum, the title is neither empty nor too long, and the last error and
-- the key are no longer than the code cuts and checks them.
abbrev pub WithinBounds : Settings → Task → Type 0
WithinBounds s t =
    (t.retry_count ≤ s.max_retries)
    × (1 ≤ length_text t.title)
    × (length_text t.title ≤ s.title_max_length)
    × (size t.last_error ≤ 1000)
    × (size t.idempotency_key ≤ 255)

pub failed_task-WithinBounds :
    (s : Settings) (now : ℕ) (t : Task) (error : String)
    → WithinBounds s t
    → WithinBounds s (failed_task s now t error)
failed_task-WithinBounds s now t error h = ground (arith, length_text-take_text 1000 error)

pub outcome_task-WithinBounds :
    (s : Settings) (now : ℕ) (t : Task) (r : Result (Unit {0}))
    → WithinBounds s t
    → WithinBounds s (outcome_task s now t r)
outcome_task-WithinBounds s now t (ok _) h = ground arith
outcome_task-WithinBounds s now t (err e) h = failed_task-WithinBounds s now t (failure_text s e) h

-- A session writes its columns over a row whose title and key are its own.
pub merge-WithinBounds :
    (s : Settings) (now : ℕ) (l c row : Task)
    → WithinBounds s c
    → WithinBounds s row
    → WithinBounds s (merge now l c row)
merge-WithinBounds s now l c row h k = ground arith

key-size :
    (o : Option String) (n : ℕ) → ((k : String) → o ≡ some k → length_text k ≤ n) → size o ≤ n
key-size none n h = omega arith
key-size (some k) n h = h k refl

pub new_task-WithinBounds :
    (s : Settings) (now id : ℕ) (raw : TaskCreateFields) (body : TaskCreate)
    → validate_create s raw ≡ ok body
    → WithinBounds s (new_task now id body)
new_task-WithinBounds s now id raw body e =
    let sound = validate_create_lem s raw body e in
    (
      omega arith,
      sound.title_bounds.0,
      sound.title_bounds.1,
      omega arith,
      key-size body.idempotency_key 255 sound.key_bound,
    )
