-- ===== src/Worker/Reclaim/Recovery.antt =====
-- Which of the stale tasks the reaper leaves for a later tick.
use taskpilot_assessment.Prelude.{
  ℕ, ◌+◌, ◌-◌, ◌≤◌, ◌<◌, ◌≡◌, ◌∙◌, ◌⊎◌, inl, inr, true, false, Bool, some, arith, length,
  Bool-cases,
}
use taskpilot_assessment.Errors.{ok}
use taskpilot_assessment.Config.{Settings}
use taskpilot_assessment.Models.{Task, running, status_eq, status_beq_iff}
use taskpilot_assessment.Time.{seconds, earlier}
use taskpilot_assessment.Database.{Database, Clock, World, has_id}
use taskpilot_assessment.Worker.Failure.Laws.{Fits}
use taskpilot_assessment.Worker.Reclaim.{is_stale, reclaim_stale_running}
use taskpilot_assessment.Worker.Reclaim.Laws.{reclaimed_row, IsReclaim, reclaim_found_lem}

module _ (D : Database) (s : Settings) (now : Clock) (locked : ℕ → Bool) where
  open D use {Db, find, select_for_update, select_complete}

  -- A stale task is selected, or the batch is full.
  selected_or_full :
      (cutoff : ℕ) (w w' : World Db) (t : Task)
      → let ts = select_for_update (is_stale cutoff) (λ _. 0) s.worker_batch_size locked w.db in
        IsReclaim D s now locked w ts w'
        → find t.id w.db ≡ some t
        → is_stale cutoff t ≡ true
        → locked t.id ≡ false
        → (find t.id w'.db ≡ some (reclaimed_row s now t))
          ⊎ ((length ts ≡ s.worker_batch_size) × (find t.id w'.db ≡ some t))
  selected_or_full cutoff w w' t r found stale free =
      let ts = select_for_update (is_stale cutoff) (λ _. 0) s.worker_batch_size locked w.db in
      elim (Bool-cases (has_id t.id ts)) [
        | inl h ↦
            let (u, at, run, old, unlocked, row) = r.taken t.id h in
            let same : u ≡ t = cc (at, found) in inl (rw same at row)
        | inr h ↦ inr ((select_complete _ _ _ _ _ t found stale free h).0, r.others t.id h ∙ found)
      ]

  -- A task whose worker was lost is not lost: when it is running, not locked, and not written to for
  -- longer than the timeout, a reap leaves it as after a failed run, or has reclaimed exactly a batch of
  -- other tasks and leaves it as it is. The clock is past the timeout and the delays fit the calendar.
  pub reclaim_stale_running_complete :
      (w w' : World Db) (n : ℕ) (t : Task)
      → seconds s.running_task_timeout_seconds ≤ now.app
      → Fits s now.app
      → reclaim_stale_running D s now locked w ≡ (ok n, w')
      → find t.id w.db ≡ some t
      → t.status ≡ running
      → t.updated_at + seconds s.running_task_timeout_seconds < now.app
      → locked t.id ≡ false
      → (find t.id w'.db ≡ some (reclaimed_row s now t))
        ⊎ ((n ≡ s.worker_batch_size) × (find t.id w'.db ≡ some t))
  unfolding reclaim_stale_running earlier
  reclaim_stale_running_complete w w' n t p f e found run old free =
      let cutoff : ℕ = now.app - seconds s.running_task_timeout_seconds in
      let (w₁, e₁, r) = reclaim_found_lem D s now locked cutoff w (omega arith) f in
      let stale : is_stale cutoff t ≡ true = ground (arith, status_beq_iff t.status running) in
      let done = selected_or_full cutoff w w₁ t r found stale free in ground arith
