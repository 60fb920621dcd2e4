-- ===== src/Worker/Tick/Laws.antt =====
-- What one tick of the worker does.
use mathlib.Core.Option
use taskpilot_assessment.Prelude.{
  ℕ, ◌≤◌, ◌<◌, ◌+◌, ◌⊎◌, All, ◌≡◌, true, false, some, List, length, nat_eq,
}
use taskpilot_assessment.Config.{Settings}
use taskpilot_assessment.Models.{Task, pending, running}
use taskpilot_assessment.Time.{seconds}
use taskpilot_assessment.Database.{Database, World, has_id}
use taskpilot_assessment.Worker.Failure.Laws.{Fits}
use taskpilot_assessment.Worker.Reclaim.Laws.{reclaimed_row}
use taskpilot_assessment.Worker.Claim.Laws.{run_row}
use taskpilot_assessment.Worker.Process.Races.{processed_row}
use taskpilot_assessment.Worker.Tick.{Surroundings}

module _ (D : Database) (s : Settings) (env : Surroundings (Database.Db D)) where
  open D use {Db, find, find-id}

  -- No other transaction commits while the tick's tasks run, and every delay fits the calendar.
  pub record IsQuiet : Type 0 where
    pub undisturbed : (j : ℕ) (w : World Db) → env.between j w ≡ w
    pub fits : (j : ℕ) → Fits s (env.clock j).app
    pub reclaim_fits : Fits s env.reclaim_clock.app
    pub old_enough : seconds s.running_task_timeout_seconds ≤ env.reclaim_clock.app

  -- The row of the task `j` after it was processed.
  abbrev pub row_after : ℕ → Task → Task
  row_after j = processed_row s (env.clock j) (env.lag j)

  -- Each of the tasks has a running row.
  abbrev AllRunning : List Task → Db → Type 0
  AllRunning ts d =
      (j : ℕ) → has_id j ts ≡ true → (u : Task) × (find j d ≡ some u) × (u.status ≡ running)

  module _ (q : IsQuiet) where
    -- The effect of a tick after the reaper: the tasks `ts` that it claimed are processed.
    pub record IsTick (w : World Db) (ts : List Task) (w' : World Db) : Type 0 where
      pub bounded : length ts ≤ s.worker_batch_size
      pub processed :
          (j : ℕ)
          → has_id j ts ≡ true
          → (t : Task) × (find j w.db ≡ some t)
            × (t.status ≡ pending)
            × (t.scheduled_at ≤ env.claim_clock.app)
            × (find j w'.db ≡ some (row_after j (run_row env.claim_clock.db t)))
      pub others : (j : ℕ) → has_id j ts ≡ false → find j w'.db ≡ find j w.db
      pub complete :
          (t : Task)
          → find t.id w.db ≡ some t
          → t.status ≡ pending
          → t.scheduled_at ≤ env.claim_clock.app
          → env.claim_locked t.id ≡ false
          → has_id t.id ts ≡ false
          → (length ts ≡ s.worker_batch_size) × All (λ u. u.scheduled_at ≤ t.scheduled_at) ts

    -- Every stale task that is not locked reads as after a failed run, or a whole batch was reclaimed.
    abbrev pub IsReaped : World Db → List Task → World Db → Type 0
    IsReaped w rs w₁ =
        (t : Task)
        → find t.id w.db ≡ some t
        → t.status ≡ running
        → t.updated_at + seconds s.running_task_timeout_seconds < env.reclaim_clock.app
        → env.reclaim_locked t.id ≡ false
        → (find t.id w₁.db ≡ some (reclaimed_row s env.reclaim_clock t))
          ⊎ ((length rs ≡ s.worker_batch_size) × (find t.id w₁.db ≡ some t))
