-- ===== src/Worker/Schedule/Safety.antt =====
-- When the reaper keeps off the tasks that a worker has claimed and still runs.
use taskpilot_assessment.Prelude.{
  ℕ, ◌+◌, ◌*◌, ◌≤◌, ◌≡◌, ◌∙◌, sym, true, Bool, some, List, arith, All, length, Bool-cases, inl, inr,
}
use taskpilot_assessment.Errors.{ok}
use taskpilot_assessment.Config.{Settings}
use taskpilot_assessment.Models.{Task}
use taskpilot_assessment.Time.{seconds}
use taskpilot_assessment.Database.{Database, Clock, World, has_id}
use taskpilot_assessment.Worker.Failure.Laws.{Fits}
use taskpilot_assessment.Worker.Reclaim.{reclaim_stale_running}
use taskpilot_assessment.Worker.Reclaim.Laws.{reclaim_stale_running_lem}
use taskpilot_assessment.Worker.Claim.{claim_due_tasks}
use taskpilot_assessment.Worker.Claim.Laws.{claim_due_tasks_lem}
use taskpilot_assessment.Worker.Gather.{permits}
use taskpilot_assessment.Worker.Schedule.{run_times, last_end}
use taskpilot_assessment.Worker.Schedule.Laws.{run_times_end, last_end_le}

module _ (D : Database) (s : Settings) where
  open D use {Db, find}

  -- A row that was written to at `since` is out of the reaper's reach until the timeout has passed.
  reclaim-recent :
      (now : Clock) (locked : ℕ → Bool) (w w' : World Db) (n j : ℕ) (t : Task)
      → reclaim_stale_running D s now locked w ≡ (ok n, w')
      → seconds s.running_task_timeout_seconds ≤ now.app
      → Fits s now.app
      → find j w.db ≡ some t
      → now.app ≤ t.updated_at + seconds s.running_task_timeout_seconds
      → find j w'.db ≡ some t
  reclaim-recent now locked w w' n j t e p f found recent =
      let (ts, w₁, e₁, r) = reclaim_stale_running_lem D s now locked w p f in
      let same : w₁ ≡ w' = cc (e, e₁) in
      elim (Bool-cases (has_id j ts)) [
        | inl h ↦
            let (u, at, run, old, unlocked, row) = r.taken j h in
            let same' : u ≡ t = cc (at, found) in absurd (ground (arith, same'))
        | inr h ↦ rw same at (r.others j h ∙ found)
      ]

  -- No worker's reaper takes a task from a tick that is still running it. The tick has claimed at most a
  -- batch of tasks and runs them from `begun` on, none of them for longer than `T`; the batch is no more
  -- than `rounds` tasks for each permit, and `rounds` times `T` from `begun` on is no later than the
  -- timeout after the claim. Then a reap by another worker, by its clock before the last run has ended,
  -- leaves each row that still reads as claimed. The clock is past the timeout and the delays fit the
  -- calendar.
  pub reclaim-claim_due_tasks :
      (now : Clock) (locked : ℕ → Bool) (d d' : Db) (ts : List Task) (begun T rounds : ℕ)
      (durations : List ℕ) (now' : Clock) (locked' : ℕ → Bool) (w w' : World Db) (n j : ℕ)
      → claim_due_tasks D now s.worker_batch_size locked d ≡ ok (ts, d')
      → length durations ≡ length ts
      → All (λ x. x ≤ T) durations
      → s.worker_batch_size ≤ rounds * permits s
      → begun + rounds * T ≤ now.db + seconds s.running_task_timeout_seconds
      → now'.app ≤ last_end begun (run_times s begun durations)
      → seconds s.running_task_timeout_seconds ≤ now'.app
      → Fits s now'.app
      → reclaim_stale_running D s now' locked' w ≡ (ok n, w')
      → has_id j ts ≡ true
      → find j w.db ≡ find j d'
      → find j w'.db ≡ find j d'
  reclaim-claim_due_tasks now locked d d' ts begun T rounds durations now' locked' w w' n j claims
        many short batch limit early past f e mine kept =
      let (us, d₁, e₁, c) = claim_due_tasks_lem D now s.worker_batch_size locked d in
      let same : us ≡ ts = ground arith in
      let same' : d₁ ≡ d' = ground arith in
      let (t, found, waits, due, free, row) = c.taken j (rw same mine) in
      let few : length ts ≤ s.worker_batch_size = rw same at c.bounded in
      let ends = run_times_end s begun T rounds durations short (omega arith) in
      let done = last_end_le (begun + rounds * T) begun _ (omega arith) ends in
      let row' = rw same' at row in
      reclaim-recent now' locked' w w' n j _ e past f (kept ∙ row') (omega arith) ∙ sym row'
