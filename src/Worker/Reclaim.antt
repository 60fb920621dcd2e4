-- ===== src/Worker/Reclaim.antt =====
-- app/worker/processing.py: `reclaim_stale_running`, the reaper.
pub mod Laws
pub mod Recovery
use taskpilot_assessment.Prelude.{ℕ, String, Bool, ◌&&◌, List, [], ◌∷◌, ltb, ◌==◌, length}
use taskpilot_assessment.Errors.{Result, ok, err, ◌>>=◌}
use taskpilot_assessment.Config.{Settings}
use taskpilot_assessment.Models.{Task, running, status_eq}
use taskpilot_assessment.Metrics
use taskpilot_assessment.Metrics.{Metrics, inc}
use taskpilot_assessment.Time.{earlier}
use taskpilot_assessment.Database.{Database, Clock, World}
use taskpilot_assessment.Database.Changes.{Change, commit_changes}
use taskpilot_assessment.Worker.Failure.{apply_failure}

-- The WHERE clause of the query.
abbrev pub is_stale : ℕ → Task → Bool
is_stale cutoff t = t.status == running && ltb t.updated_at cutoff

abbrev pub stalled : String
stalled = "execution stalled (worker lost or exceeded timeout)"

abbrev prepend : Change → Result (List Change) × Metrics → Result (List Change) × Metrics
prepend c (r, m) = ((do cs ← r; ok (c ∷ cs)), m)

-- An exception leaves the loop.
abbrev reclaim_next :
    Task
    → Result Task × Metrics
    → (Metrics → Result (List Change) × Metrics)
    → Result (List Change) × Metrics
reclaim_next task (err e, m) rest = (err e, m)
reclaim_next task (ok task', m) rest = prepend (task, task') (rest m)

-- The loop over the stale tasks: the objects before and after, and the counters.
unfoldable pub reclaim_each :
    Settings → (now : ℕ) → List Task → Metrics → Result (List Change) × Metrics
reclaim_each settings now [] m = (ok [], m)
reclaim_each settings now (task ∷ tasks) m =
    reclaim_next task (apply_failure settings now task stalled (inc Metrics.reclaimed m))
      (reclaim_each settings now tasks)

module _ (D : Database) where
  open D use {Db, select_for_update}

  -- The end of a transaction: its changes are committed, or an exception rolls them all back.
  -- Counters are not rolled back.
  abbrev pub close {ℓ} : {A : Type ℓ} → A → Metrics → World Db → Result Db → Result A × World Db
  close a m w (ok d) = (ok a, record { db = d; metrics = m })
  close a m w (err e) = (err e, record { db = w.db; metrics = m })

  unfoldable pub reclaim_found : Settings → Clock → List Task → World Db → Result ℕ × World Db
  reclaim_found settings now stale w =
      let (r, m) = reclaim_each settings now.app stale w.metrics in
      close (length stale) m w (do cs ← r; commit_changes D now.db cs w.db)

  unfoldable pub reclaim_stale_running :
      Settings → Clock → (locked : ℕ → Bool) → World Db → Result ℕ × World Db
  unfolding reclaim_found
  reclaim_stale_running settings now locked w =
      elim (earlier now.app settings.running_task_timeout_seconds) [
        | err e ↦ (err e, w)
        | ok cutoff ↦
            reclaim_found settings now
              (select_for_update (is_stale cutoff) (λ _. 0) settings.worker_batch_size locked w.db)
              w
      ]
