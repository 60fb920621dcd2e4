-- ===== src/Worker/Retries.antt =====
-- app/worker/processing.py: a task that fails again and again, by `_apply_failure` after each claim.
use taskpilot_assessment.Prelude.{
  ℕ, ◌+◌, ◌-◌, ◌≤◌, ◌≡◌, ◌∙◌, refl, String, List, [], ◌∷◌, arith, All, length,
}
use taskpilot_assessment.Errors.{Result, ok, err}
use taskpilot_assessment.Config.{Settings}
use taskpilot_assessment.Models.{Task, TaskStatus}
use taskpilot_assessment.Metrics.{Metrics, inc}
use taskpilot_assessment.Worker.Claim.{set_running}
use taskpilot_assessment.Worker.Failure.{apply_failure}
use taskpilot_assessment.Worker.Failure.Laws.{Fits, failed_task, failed_counter, apply_failure_lem}

-- What follows a failed run, unless the run's end raised.
abbrev pub then_run :
    (Task → Metrics → Result Task × Metrics) → Result Task × Metrics → Result Task × Metrics
then_run f (ok t, m) = f t m
then_run f (err e, m) = (err e, m)

-- Failed runs one after the other, each with its time and its error.
unfoldable pub fail_each : Settings → List (ℕ × String) → Task → Metrics → Result Task × Metrics
fail_each s [] t m = (ok t, m)
fail_each s ((now, error) ∷ fs) t m =
    then_run (λ t' m'. fail_each s fs t' m') (apply_failure s now (set_running t) error m)

fail_each-step :
    (s : Settings) (now : ℕ) (error : String) (fs : List (ℕ × String)) (t : Task) (m : Metrics)
    → Fits s now
    → fail_each s ((now, error) ∷ fs) t m
      ≡ fail_each s fs
          (failed_task s now (set_running t) error)
          (inc (failed_counter s (set_running t)) m)
unfolding fail_each
fail_each-step s now error fs t m f = rw (apply_failure_lem s now (set_running t) error m f) refl

-- A task whose runs all fail, not more of them than it has retries left, when the settings' delays fit the
-- calendar, is pending after them: its retry count has gone up by one for each, and each was counted as
-- retried.
fail_each_retried :
    (s : Settings) (fs : List (ℕ × String)) (t : Task) (m : Metrics)
    → All (λ f. Fits s f.0) fs
    → t.status ≡ TaskStatus.pending
    → t.retry_count + length fs ≤ s.max_retries
    → (t' : Task) × (fail_each s fs t m
        ≡ (ok t', record m { processed_retried = m.processed_retried + length fs }))
      × (t'.status ≡ TaskStatus.pending)
      × (t'.retry_count ≡ t.retry_count + length fs)
      × (t'.id ≡ t.id)
unfolding fail_each
fail_each_retried s [] t m a waits left = (t, ground arith, waits, omega arith, refl)
fail_each_retried s ((now, error) ∷ fs) t m (f, a) waits left =
    let t₁ : Task = failed_task s now (set_running t) error in
    let m₁ = inc (failed_counter s (set_running t)) m in
    let (t', e, again, count, same) =
      fail_each_retried s fs t₁ m₁ a (ground arith) (ground arith) in
    (
      t',
      fail_each-step s now error fs t m f ∙ e ∙ ground arith,
      again,
      ground (arith, count),
      ground (arith, same),
    )

-- A task whose runs all fail, one more of them than it has retries left, when the settings' delays fit the
-- calendar, is dead exactly after the last: its retry count is the maximum, each run but the last was
-- counted as retried and the last as dead.
pub fail_each_dead :
    (s : Settings) (fs : List (ℕ × String)) (t : Task) (m : Metrics)
    → All (λ f. Fits s f.0) fs
    → t.retry_count + length fs ≡ s.max_retries + 1
    → 1 ≤ length fs
    → (t' : Task) × (fail_each s fs t m ≡ (
      ok t',
      record m {
        processed_retried = m.processed_retried + (length fs - 1);
        processed_dead = m.processed_dead + 1;
      },
    ))
      × (t'.status ≡ TaskStatus.dead)
      × (t'.retry_count ≡ s.max_retries)
      × (t'.id ≡ t.id)
unfolding fail_each
fail_each_dead s [] t m a all some' = ground arith
fail_each_dead s ((now, error) ∷ []) t m (f, a) all some' = (
  failed_task s now (set_running t) error,
  fail_each-step s now error [] t m f ∙ ground arith,
  ground arith,
  ground arith,
  ground arith,
)
fail_each_dead s ((now, error) ∷ g ∷ fs) t m (f, a) all some' =
    let t₁ : Task = failed_task s now (set_running t) error in
    let m₁ = inc (failed_counter s (set_running t)) m in
    let (t', e, dead', spent, same) =
      fail_each_dead s (g ∷ fs) t₁ m₁ a (ground arith) (omega arith) in
    (
      t',
      fail_each-step s now error (g ∷ fs) t m f ∙ e ∙ ground arith,
      dead',
      spent,
      ground (arith, same),
    )
