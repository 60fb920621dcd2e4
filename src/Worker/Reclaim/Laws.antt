-- ===== src/Worker/Reclaim/Laws.antt =====
-- What the reaper does to the table.
use mathlib.Core.Option
use taskpilot_assessment.Prelude.{
  ℕ, ◌+◌, ◌-◌, ◌≤◌, ◌<◌, ◌≡◌, ◌∙◌, refl, true, false, Bool, some, List, [], ◌∷◌, arith, All, length,
  if◌then◌else◌,
}
use taskpilot_assessment.Errors.{ok}
use taskpilot_assessment.Config.{Settings}
use taskpilot_assessment.Models.{Task, running, status_eq, status_beq_iff}
use taskpilot_assessment.Metrics
use taskpilot_assessment.Metrics.{Metrics, inc}
use taskpilot_assessment.Time.{seconds, earlier}
use taskpilot_assessment.Database.{Database, Clock, World, has_id}
use taskpilot_assessment.Database.Rows.{All-has_id}
use taskpilot_assessment.Database.Changes.{change_all, touch, IsLocked, commit-change_all}
use taskpilot_assessment.Worker.Failure.Laws.{
  Fits, failed_task, failed_counter, failed_task_facts, apply_failure_lem,
}
use taskpilot_assessment.Worker.Reclaim.{
  is_stale, stalled, reclaim_each, reclaim_found, reclaim_stale_running,
}

-- The counters after the loop.
abbrev pub reclaim_count : Settings → List Task → Metrics → Metrics
reclaim_count s [] m = m
reclaim_count s (t ∷ ts) m = reclaim_count s ts (inc (failed_counter s t) (inc Metrics.reclaimed m))

reclaim_count-length :
    (s : Settings) (ts : List Task) (m : Metrics)
    → ((reclaim_count s ts m).tasks_reclaimed_total ≡ m.tasks_reclaimed_total + length ts)
      × ((reclaim_count s ts m).processed_retried + (reclaim_count s ts m).processed_dead
          ≡ m.processed_retried + m.processed_dead + length ts)
reclaim_count-length s [] m = omega arith
reclaim_count-length s (t ∷ ts) m =
    ground (arith, reclaim_count-length s ts (inc (failed_counter s t) (inc Metrics.reclaimed m)))

reclaim_each_lem :
    (s : Settings) (now : ℕ) (ts : List Task) (m : Metrics)
    → Fits s now
    → reclaim_each s now ts m
      ≡ (ok (change_all (λ t. failed_task s now t stalled) ts), reclaim_count s ts m)
unfolding reclaim_each
reclaim_each_lem s now [] m f = refl
reclaim_each_lem s now (t ∷ ts) m f =
    rw (apply_failure_lem s now t stalled (inc Metrics.reclaimed m) f, reclaim_each)
      (rw (reclaim_each_lem s now ts (inc (failed_counter s t) (inc Metrics.reclaimed m)) f))

-- What the query says of each row that it selects.
is_stale-facts :
    (cutoff : ℕ) (t : Task)
    → is_stale cutoff t ≡ true
    → (t.status ≡ running) × (t.updated_at < cutoff)
is_stale-facts cutoff t h = ground (arith, status_beq_iff t.status running)

-- The row of a reclaimed task.
abbrev pub reclaimed_row : Settings → Clock → Task → Task
reclaimed_row s now t = touch now.db (failed_task s now.app t stalled)

module _ (D : Database) (s : Settings) (now : Clock) (locked : ℕ → Bool) where
  open D use {Db, find, select_for_update, select_sound, select_distinct, select_limit}

  -- The effect of a reap that reclaims the tasks `ts`.
  pub record IsReclaim (w : World Db) (ts : List Task) (w' : World Db) : Type 0 where
    pub bounded : length ts ≤ s.worker_batch_size
    pub taken :
        (j : ℕ)
        → has_id j ts ≡ true
        → (t : Task) × (find j w.db ≡ some t)
          × (t.status ≡ running)
          × (t.updated_at + seconds s.running_task_timeout_seconds < now.app)
          × (locked j ≡ false)
          × (find j w'.db ≡ some (reclaimed_row s now t))
    pub others : (j : ℕ) → has_id j ts ≡ false → find j w'.db ≡ find j w.db
    pub counted : w'.metrics ≡ reclaim_count s ts w.metrics

  abbrev IsSelected : ℕ → Db → Task → Type 0
  IsSelected cutoff d t =
      (find t.id d ≡ some t) × (is_stale cutoff t ≡ true) × (locked t.id ≡ false)

  All-IsLocked :
      (cutoff : ℕ) (d : Db) (ts : List Task)
      → All (IsSelected cutoff d) ts
      → All (λ t. IsLocked D d (t, failed_task s now.app t stalled)) ts
  All-IsLocked cutoff d [] a = tt
  All-IsLocked cutoff d (t ∷ ts) (h, a) =
      let (kept, changed) = failed_task_facts s now.app t stalled in
      let (run, old) = is_stale-facts cutoff t h.1 in
      ((h.0, changed run, kept), All-IsLocked cutoff d ts a)

  taken-stale :
      (cutoff : ℕ) (d d' : Db) (ts : List Task) (j : ℕ)
      → cutoff + seconds s.running_task_timeout_seconds ≡ now.app
      → All (IsSelected cutoff d) ts
      → find j d' ≡ (if has_id j ts then Option.map (reclaimed_row s now) (find j d) else find j d)
      → has_id j ts ≡ true
      → (t : Task) × (find j d ≡ some t)
        × (t.status ≡ running)
        × (t.updated_at + seconds s.running_task_timeout_seconds < now.app)
        × (locked j ≡ false)
        × (find j d' ≡ some (reclaimed_row s now t))
  taken-stale cutoff d d' ts j c a e h =
      let (t, same, (found, stale, free)) = All-has_id (IsSelected cutoff d) j ts a h in
      let (run, old) = is_stale-facts cutoff t stale in
      let found' : find j d ≡ some t = rw same at found in
      (t, found', run, omega arith, rw same at free, rw e (rw h (rw found')))

  pub reclaim_found_lem :
      (cutoff : ℕ) (w : World Db)
      → cutoff + seconds s.running_task_timeout_seconds ≡ now.app
      → Fits s now.app
      → let ts = select_for_update (is_stale cutoff) (λ _. 0) s.worker_batch_size locked w.db in
        (w' : World Db) × (reclaim_found D s now ts w ≡ (ok (length ts), w')) × IsReclaim w ts w'
  unfolding reclaim_found
  reclaim_found_lem cutoff w c f =
      let ts = select_for_update (is_stale cutoff) (λ _. 0) s.worker_batch_size locked w.db in
      let sound : All (IsSelected cutoff w.db) ts = select_sound _ _ _ _ _ in
      let (d', e, rows) =
        commit-change_all D (λ t. failed_task s now.app t stalled) now.db w.db ts
          (All-IsLocked cutoff w.db ts sound) (select_distinct _ _ _ _ _) in
      (
        record { db = d'; metrics = reclaim_count s ts w.metrics },
        rw (reclaim_each_lem s now.app ts w.metrics f) (rw e),
        record {
          bounded = select_limit _ _ _ _ _;
          taken = λ j. taken-stale cutoff w.db d' ts j c sound (rows j);
          others = λ j h. rows j ∙ rw h;
          counted = refl;
        },
      )

  -- Reaping always succeeds, when the clock is past the timeout and the delays fit the calendar. It
  -- reclaims at most a batch of tasks; each was running, not locked, and not written to for longer
  -- than the timeout, and now reads as after a failed run; every other row reads as before.
  pub reclaim_stale_running_lem :
      (w : World Db)
      → seconds s.running_task_timeout_seconds ≤ now.app
      → Fits s now.app
      → (ts : List Task) × (w' : World Db) × (reclaim_stale_running D s now locked w
          ≡ (ok (length ts), w'))
        × IsReclaim w ts w'
  unfolding reclaim_stale_running earlier
  reclaim_stale_running_lem w p f =
      let cutoff : ℕ = now.app - seconds s.running_task_timeout_seconds in
      let (w', e, r) = reclaim_found_lem cutoff w (omega arith) f in (_, w', ground arith, r)
