-- ===== src/Worker/Failure.antt =====
-- app/worker/processing.py: the backoff, and what a failed run does to a task.
pub mod Laws
use taskpilot_assessment.Prelude.{
  ℕ, ◌+◌, ◌-◌, ◌*◌, ◌^◌, String, some, ltb, if◌then◌else◌, take_text,
}
use taskpilot_assessment.Errors.{Result, ok, err}
use taskpilot_assessment.Config.{Settings}
use taskpilot_assessment.Models.{Task, TaskStatus}
use taskpilot_assessment.Metrics
use taskpilot_assessment.Metrics.{Metrics, inc}
use taskpilot_assessment.Time.{later}

-- `max(attempt - 1, 0)` is the subtraction of natural numbers.
unfoldable pub backoff_delay_seconds : ℕ → ℕ → ℕ
backoff_delay_seconds attempt base = base * 2 ^ (attempt - 1)

-- The retry of a task, once its next time is known.
abbrev retry : Task → ℕ → Metrics → Result ℕ → Result Task × Metrics
retry task attempt m (err e) = (err e, m)
retry task attempt m (ok at) = (
  ok (record task { retry_count = attempt; status = TaskStatus.pending; scheduled_at = at }),
  inc Metrics.retried m,
)

-- The object after the call, or the exception that the call raises, and the counters.
unfoldable pub apply_failure :
    Settings → (now : ℕ) → Task → (error : String) → Metrics → Result Task × Metrics
apply_failure settings now task error m =
    let attempt = task.retry_count + 1 in
    let task' : Task = record task { last_error = some (take_text 1000 error) } in
    if ltb settings.max_retries attempt
    then (ok (record task' { status = TaskStatus.dead }), inc Metrics.dead m)
    else let delay = backoff_delay_seconds attempt settings.retry_backoff_base_seconds in
      retry task' attempt m (later now delay)
