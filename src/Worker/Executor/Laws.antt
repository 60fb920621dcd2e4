-- ===== src/Worker/Executor/Laws.antt =====
-- How an execution under its timeout ends.
use taskpilot_assessment.Prelude.{ℕ, ◌+◌, ◌≤◌, ◌<◌, ◌≡◌, true, false, arith}
use taskpilot_assessment.Errors.{ok, err, execution_error, timeout_error}
use taskpilot_assessment.Json.{Json}
use taskpilot_assessment.Time.{seconds}
use taskpilot_assessment.Worker.Executor.{force_fail, execute_task, wait_for}

-- With a timeout of zero an execution always times out; else a payload that forces a failure raises,
-- and any other payload succeeds exactly when its half second and the delay of the event loop fit in
-- the timeout.
wait_for-execute_task :
    (timeout lag : ℕ) (payload : Json)
    → (wait_for 0 lag (execute_task payload) ≡ err timeout_error)
      × (0 < timeout
          → force_fail payload ≡ true
          → wait_for timeout lag (execute_task payload)
            ≡ err (execution_error "payload requested forced failure"))
      × (force_fail payload ≡ false
          → 500000 + lag < seconds timeout
          → wait_for timeout lag (execute_task payload) ≡ ok tt)
      × (force_fail payload ≡ false
          → seconds timeout ≤ 500000 + lag
          → wait_for timeout lag (execute_task payload) ≡ err timeout_error)
unfolding wait_for execute_task
wait_for-execute_task timeout lag payload =
    (ground arith, λ h e. ground arith, λ e h. ground arith, λ e h. ground arith)
