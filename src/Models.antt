-- ===== src/Models.antt =====
-- app/models.py: the status of a task and a row of the `tasks` table. A UUID is its number, and a
-- time is a number of microseconds since datetime.min, in UTC.
pub mod Columns
use taskpilot_assessment.Prelude.{
  ℕ, String, ◌≡◌, ◌↔◌, Bool, true, false, Option, none, some, arith, Equality, ◌==◌, string_eq,
  eq_iff,
}
use taskpilot_assessment.Json.{Json}

pub data TaskStatus : Type 0 where
  pending running succeeded failed dead : TaskStatus

pub record Task : Type 0 where
  pub id : ℕ
  pub title : String
  pub payload : Json
  pub idempotency_key : Option String
  pub scheduled_at : ℕ
  pub status : TaskStatus
  pub retry_count : ℕ
  pub last_error : Option String
  pub created_at : ℕ
  pub updated_at : ℕ

-- `status.value`
abbrev pub value : TaskStatus → String
value pending = "pending"
value running = "running"
value succeeded = "succeeded"
value failed = "failed"
value dead = "dead"

abbrev pub status_beq : TaskStatus → TaskStatus → Bool
status_beq pending pending = true
status_beq running running = true
status_beq succeeded succeeded = true
status_beq failed failed = true
status_beq dead dead = true
status_beq _ _ = false

pub status_beq_iff : (a b : TaskStatus) → (status_beq a b ≡ true) ↔ (a ≡ b)
status_beq_iff a b = ground arith

instance abbrev pub status_eq : Equality TaskStatus
status_eq = record { equal = status_beq; equal_iff = status_beq_iff }

abbrev pub option_beq : Option String → Option String → Bool
option_beq none none = true
option_beq (some a) (some b) = a == b
option_beq _ _ = false

pub option_beq_iff : (a b : Option String) → (option_beq a b ≡ true) ↔ (a ≡ b)
option_beq_iff none b = ground arith
option_beq_iff (some a) none = ground arith
option_beq_iff (some a) (some b) = ground (arith, eq_iff a b)

instance abbrev pub option_eq : Equality (Option String)
option_eq = record { equal = option_beq; equal_iff = option_beq_iff }
