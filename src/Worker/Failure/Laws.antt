-- ===== src/Worker/Failure/Laws.antt =====
-- What a failed run does to a task, on each branch.
use taskpilot_assessment.Prelude.{
  ℕ, false, suc, ◌+◌, ◌-◌, ◌*◌, ◌^◌, ◌≤◌, ◌<◌, String, ◌≡◌, ◌≢◌, some, arith, ltb, take_text,
  if◌then◌else◌,
}
use native.Mathlib.Decide.{dec_lt}
use native.Mathlib.Nat.{pow-suc, pow-le-pow_right, mul-le-mul_left}
use taskpilot_assessment.Errors.{ok}
use taskpilot_assessment.Config.{Settings}
use taskpilot_assessment.Models.{Task, TaskStatus}
use taskpilot_assessment.StateMachine.{can_transition}
use taskpilot_assessment.Metrics
use taskpilot_assessment.Metrics.{Metrics, Counter, inc}
use taskpilot_assessment.Time.{seconds, later, max_time}
use taskpilot_assessment.Database.{SameIdentity}
use taskpilot_assessment.Worker.Failure.{backoff_delay_seconds, apply_failure}

-- The first retry waits for the base, and each later one twice as long as the one before it.
backoff_doubles :
    (base : ℕ) (n : ℕ)
    → (backoff_delay_seconds 1 base ≡ base)
      × (backoff_delay_seconds (n + 2) base ≡ 2 * backoff_delay_seconds (n + 1) base)
unfolding backoff_delay_seconds
backoff_doubles base n = (
  omega arith,
  let e : n + 2 - 1 ≡ suc n = omega arith in
      let e' : n + 1 - 1 ≡ n = omega arith in rw (e, e', pow-suc) (omega arith),
)

backoff_mono : (base a b : ℕ) → a ≤ b → backoff_delay_seconds a base ≤ backoff_delay_seconds b base
unfolding backoff_delay_seconds
backoff_mono base a b h = mul-le-mul_left base (pow-le-pow_right (omega arith) (omega arith))

-- No retry of the settings is scheduled past `datetime.max`.
abbrev pub Fits : Settings → ℕ → Type 0
Fits s now =
    now + seconds (backoff_delay_seconds s.max_retries s.retry_backoff_base_seconds) ≤ max_time

-- A retry that is allowed can be scheduled.
later-backoff :
    (s : Settings) (now attempt : ℕ)
    → Fits s now
    → attempt ≤ s.max_retries
    → later now (backoff_delay_seconds attempt s.retry_backoff_base_seconds)
      ≡ ok (now + seconds (backoff_delay_seconds attempt s.retry_backoff_base_seconds))
unfolding later
later-backoff s now attempt f h =
    ground (arith, backoff_mono s.retry_backoff_base_seconds attempt s.max_retries)

-- A task whose retries are used up, after one more failed run.
abbrev pub dead_lettered : Task → String → Task
dead_lettered t error = record t {
  last_error = some (take_text 1000 error);
  status = TaskStatus.dead;
}

-- A task with retries left, after a failed run.
abbrev pub requeued : Settings → (now : ℕ) → Task → String → Task
requeued s now t error = record t {
  last_error = some (take_text 1000 error);
  retry_count = t.retry_count + 1;
  status = TaskStatus.pending;
  scheduled_at = now + seconds (s.retry_backoff_base_seconds * 2 ^ t.retry_count);
}

abbrev pub failed_task : Settings → (now : ℕ) → Task → String → Task
failed_task s now t error =
    if ltb t.retry_count s.max_retries then requeued s now t error else dead_lettered t error

abbrev pub failed_counter : Settings → Task → Counter
failed_counter s t = if ltb t.retry_count s.max_retries then Metrics.retried else Metrics.dead

later-attempt :
    (s : Settings) (now : ℕ) (t : Task)
    → Fits s now
    → t.retry_count < s.max_retries
    → later now (backoff_delay_seconds (t.retry_count + 1) s.retry_backoff_base_seconds)
      ≡ ok (now + seconds (s.retry_backoff_base_seconds * 2 ^ t.retry_count))
later-attempt s now t f h =
    let e : t.retry_count + 1 - 1 ≡ t.retry_count = omega arith in
    rw (later-backoff s now (t.retry_count + 1) f (omega arith))
      (unfold backoff_delay_seconds in rw e)

-- Every branch of a failed run, when the settings' delays fit the calendar: a task with retries left
-- is pending again, one retry further, after the backoff, and else it is dead. The error is cut to
-- 1000 characters and the counter of the outcome goes up.
pub apply_failure_lem :
    (s : Settings) (now : ℕ) (t : Task) (error : String) (m : Metrics)
    → Fits s now
    → apply_failure s now t error m ≡ (ok (failed_task s now t error), inc (failed_counter s t) m)
unfolding apply_failure
apply_failure_lem s now t error m f = elim (dec_lt t.retry_count s.max_retries) [
  | yes more ↦ ground (arith, later-attempt s now t f more)
  | no spent ↦ ground arith
]

pub failed_task_facts :
    (s : Settings) (now : ℕ) (t : Task) (error : String)
    → SameIdentity t (failed_task s now t error)
      × ((t.status ≡ TaskStatus.running) → t.status ≢ (failed_task s now t error).status)
failed_task_facts s now t error = ground arith

-- The worker's own transitions go past the state machine: from running it writes pending or dead
-- directly, and neither is an allowed transition.
failed_task-can_transition :
    (s : Settings) (now : ℕ) (t : Task) (error : String) (m m' : Metrics) (t' : Task)
    → Fits s now
    → t.status ≡ TaskStatus.running
    → apply_failure s now t error m ≡ (ok t', m')
    → can_transition t.status t'.status ≡ false
unfolding can_transition
failed_task-can_transition s now t error m m' t' f run e =
    ground (arith, apply_failure_lem s now t error m f)
