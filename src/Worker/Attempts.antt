-- ===== src/Worker/Attempts.antt =====
-- app/worker/processing.py: a task through one claim and run after the other, each with the time of its
-- end and the delay of the event loop, until it is no longer pending.
use taskpilot_assessment.Prelude.{
  ℕ, ◌+◌, ◌≤◌, ◌<◌, ◌≡◌, ◌≢◌, ◌⊎◌, ◌∙◌, refl, inl, inr, none, List, [], ◌∷◌, arith, All, length,
  ◌==◌, if◌then◌else◌,
}
use taskpilot_assessment.Errors.{Result, ok, err}
use taskpilot_assessment.Config.{Settings}
use taskpilot_assessment.Models.{Task, pending, succeeded, dead, status_eq, status_beq_iff}
use taskpilot_assessment.Metrics
use taskpilot_assessment.Metrics.{Metrics, inc}
use taskpilot_assessment.Worker.Executor.{execute_task, wait_for}
use taskpilot_assessment.Worker.Claim.{set_running}
use taskpilot_assessment.Worker.Failure.{apply_failure}
use taskpilot_assessment.Worker.Failure.Laws.{Fits, apply_failure_lem}
use taskpilot_assessment.Worker.Process.{failure_text}
use taskpilot_assessment.Worker.Process.Laws.{run_result, outcome_task, outcome_counter}
use taskpilot_assessment.Worker.Retries.{then_run}

-- What the end of a run writes.
abbrev pub settle :
    Settings → (now : ℕ) → Task → Result (Unit {0}) → Metrics → Result Task × Metrics
settle s now t (ok _) m =
    (ok (record t { status = succeeded; last_error = none }), inc Metrics.succeeded m)
settle s now t (err e) m = apply_failure s now t (failure_text s e) m

-- Claimed, executed, and its outcome written.
unfoldable pub attempt : Settings → (now lag : ℕ) → Task → Metrics → Result Task × Metrics
unfolding wait_for execute_task
attempt s now lag t m =
    settle s now (set_running t) (wait_for s.execution_timeout_seconds lag (execute_task t.payload))
      m

-- A task that is not pending is not claimed again.
unfoldable pub attempt_each : Settings → List (ℕ × ℕ) → Task → Metrics → Result Task × Metrics
unfolding attempt
attempt_each s [] t m = (ok t, m)
attempt_each s ((now, lag) ∷ rs) t m =
    if t.status == pending
    then then_run (λ t' m'. attempt_each s rs t' m') (attempt s now lag t m)
    else (ok t, m)

-- The task after one run.
abbrev pub attempted : Settings → (now lag : ℕ) → Task → Task
attempted s now lag t = outcome_task s now (set_running t) (run_result s lag t)

settle_lem :
    (s : Settings) (now : ℕ) (t : Task) (r : Result (Unit {0})) (m : Metrics)
    → Fits s now
    → settle s now t r m ≡ (ok (outcome_task s now t r), inc (outcome_counter s t r) m)
settle_lem s now t (ok _) m f = refl
settle_lem s now t (err e) m f = apply_failure_lem s now t (failure_text s e) m f

attempt_each-step :
    (s : Settings) (now lag : ℕ) (rs : List (ℕ × ℕ)) (t : Task) (m : Metrics)
    → Fits s now
    → t.status ≡ pending
    → (m' : Metrics) × (attempt_each s ((now, lag) ∷ rs) t m
        ≡ attempt_each s rs (attempted s now lag t) m')
unfolding attempt_each attempt
attempt_each-step s now lag rs t m f waits = (
  inc (outcome_counter s (set_running t) (run_result s lag t)) m,
  rw (waits, settle_lem s now (set_running t) (run_result s lag t) m f) refl,
)

attempt_each-over :
    (s : Settings) (rs : List (ℕ × ℕ)) (t : Task) (m : Metrics)
    → t.status ≢ pending
    → attempt_each s rs t m ≡ (ok t, m)
unfolding attempt_each
attempt_each-over s [] t m over = refl
attempt_each-over s ((now, lag) ∷ rs) t m over = ground (arith, status_beq_iff t.status pending)

-- A run ends the task, or costs it one retry that it had left.
attempted-cases :
    (s : Settings) (now : ℕ) (t : Task) (r : Result (Unit {0}))
    → let u = outcome_task s now (set_running t) r in
      (u.status ≡ succeeded)
      ⊎ (u.status ≡ dead)
      ⊎ (u.status ≡ pending) × (u.retry_count ≡ t.retry_count + 1) × (t.retry_count < s.max_retries)
attempted-cases s now t (ok _) = inl refl
attempted-cases s now t (err e) = ground arith

-- A pending task that has not used more retries than the maximum, when the settings' delays fit the
-- calendar, is not run for ever: once there were as many opportunities as it has retries left, and one
-- more, it has succeeded or is dead, whatever its payload is and however late each run is resumed.
pub attempt_each-ends :
    (s : Settings) (rs : List (ℕ × ℕ)) (t : Task) (m : Metrics)
    → All (λ r. Fits s r.0) rs
    → t.status ≡ pending
    → t.retry_count ≤ s.max_retries
    → s.max_retries + 1 ≤ t.retry_count + length rs
    → (t' : Task) × (m' : Metrics) × (attempt_each s rs t m ≡ (ok t', m'))
      × ((t'.status ≡ succeeded) ⊎ (t'.status ≡ dead))
attempt_each-ends s [] t m a waits left enough = absurd (omega arith)
attempt_each-ends s ((now, lag) ∷ rs) t m (f, a) waits left enough =
    let (m₁, e) = attempt_each-step s now lag rs t m f waits in
    let t₁ : Task = attempted s now lag t in
    elim (attempted-cases s now t (run_result s lag t)) [
      | inl done ↦ (t₁, m₁, e ∙ attempt_each-over s rs t₁ m₁ (ground (arith, done)), inl done)
      | inr (inl gone) ↦ (t₁, m₁, e ∙ attempt_each-over s rs t₁ m₁ (ground (arith, gone)), inr gone)
      | inr (inr (again, count, more)) ↦
          let (t', m', e', ended) =
            attempt_each-ends s rs t₁ m₁ a again (omega arith) (omega arith) in
          (t', m', e ∙ e', ended)
    ]
