-- ===== src/Worker/Executor.antt =====
-- app/worker/executor.py: the simulated execution of a task, and how asyncio bounds it.
pub mod Laws
use taskpilot_assessment.Prelude.{ℕ, ◌+◌, Bool, false, ltb, ◌==◌, nat_eq, if◌then◌else◌}
use taskpilot_assessment.Errors.{Exception, Result, ok, err, execution_error, timeout_error}
use taskpilot_assessment.Json.{Json, obj, get, is_true}
use taskpilot_assessment.Time.{seconds}

-- What awaiting a coroutine does: it raises at once, or it returns after a sleep in microseconds.
pub data Execution : Type 0 where
  raises : Exception → Execution
  sleeps : ℕ → Execution

-- `isinstance(payload, dict) and payload.get("force_fail") is True`
unfoldable pub force_fail : Json → Bool
unfolding get
force_fail (obj fs) = is_true (get "force_fail" fs)
force_fail _ = false

unfoldable pub execute_task : Json → Execution
execute_task payload =
    if force_fail payload
    then raises (execution_error "payload requested forced failure")
    else sleeps 500000

-- `asyncio.wait_for(e, timeout=t)`: with no time at all the coroutine never starts, and `lag` is how
-- late the event loop resumes it.
unfoldable pub wait_for : ℕ → ℕ → Execution → Result (Unit {0})
wait_for t lag (raises e) = if t == 0 then err timeout_error else err e
wait_for t lag (sleeps d) =
    if t == 0
    then err timeout_error
    else if ltb (d + lag) (seconds t)
    then ok tt
    else err timeout_error
