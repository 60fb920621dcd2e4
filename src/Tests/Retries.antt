-- ===== src/Tests/Retries.antt =====
-- A task that fails again and again, with the settings' defaults.
use taskpilot_assessment.Prelude.{ℕ, ◌≡◌, ◌⊎◌, ◌≤◌, refl, String, List, [], ◌∷◌, arith}
use taskpilot_assessment.Errors.{ok}
use taskpilot_assessment.Config.{default_settings}
use taskpilot_assessment.Models.{Task, TaskStatus}
use taskpilot_assessment.Metrics.{Metrics, zero_metrics}
use taskpilot_assessment.Worker.Failure.{backoff_delay_seconds}
use taskpilot_assessment.Worker.Failure.Laws.{Fits}
use taskpilot_assessment.Worker.Retries.{fail_each, fail_each_dead}
use taskpilot_assessment.Worker.Attempts.{attempt_each, attempt_each-ends}
use taskpilot_assessment.Tests.Data.{flaky}

-- Three runs, each after the wait of the one before it, and a fourth.
abbrev three : List (ℕ × String)
three = (1000000000, "boom") ∷ (1070000000, "boom") ∷ (1200000000, "boom") ∷ []

abbrev four : List (ℕ × String)
four = (990000000, "boom") ∷ three

fits : (now : ℕ) → now ≤ 2000000000 → Fits default_settings now
unfolding backoff_delay_seconds
fits now h = omega arith

fail_each_dead_example :
    (t' : Task) × (fail_each default_settings four flaky zero_metrics
      ≡ (ok t', record zero_metrics { processed_retried = 3; processed_dead = 1 }))
    × (t'.status ≡ TaskStatus.dead)
    × (t'.retry_count ≡ 3)
    × (t'.id ≡ 2)
fail_each_dead_example =
    fail_each_dead default_settings four flaky zero_metrics
      (
        fits _ (omega arith),
        (fits _ (omega arith), (fits _ (omega arith), (fits _ (omega arith), tt))),
      )
      refl (omega arith)

-- A payload that forces its failure, five times.
abbrev five : List (ℕ × ℕ)
five = (990000000, 0) ∷ (1000000000, 0) ∷ (1070000000, 0) ∷ (1200000000, 0) ∷ (1500000000, 0) ∷ []

attempt_each-ends_example :
    (t' : Task) × (m' : Metrics) × (attempt_each default_settings five flaky zero_metrics
      ≡ (ok t', m'))
    × ((t'.status ≡ TaskStatus.succeeded) ⊎ (t'.status ≡ TaskStatus.dead))
attempt_each-ends_example =
    attempt_each-ends default_settings five flaky zero_metrics
      (
        fits _ (omega arith),
        (
          fits _ (omega arith),
          (fits _ (omega arith), (fits _ (omega arith), (fits _ (omega arith), tt))),
        ),
      )
      refl (omega arith) (omega arith)
