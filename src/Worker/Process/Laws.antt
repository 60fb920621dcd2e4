-- ===== src/Worker/Process/Laws.antt =====
-- What processing one claimed task does to the table, whatever other transactions commit meanwhile.
use taskpilot_assessment.Prelude.{
  ℕ, ◌≡◌, ◌≢◌, refl, none, some, arith, ◌==◌, nat_eq, if◌then◌else◌, Option-cases, inl, inr,
}
use taskpilot_assessment.Errors.{Result, ok, err, stale_data_error}
use taskpilot_assessment.Config.{Settings}
use taskpilot_assessment.Models.{Task, running, succeeded, status_eq, status_beq_iff, option_eq}
use taskpilot_assessment.Metrics
use taskpilot_assessment.Metrics.{Metrics, Counter, inc}
use taskpilot_assessment.Database.{Database, Clock, World, merge, SameIdentity}
use taskpilot_assessment.Worker.Executor.{execute_task, wait_for}
use taskpilot_assessment.Worker.Failure.Laws.{
  Fits, failed_task, failed_counter, failed_task_facts, apply_failure_lem,
}
use taskpilot_assessment.Worker.Process.{
  failure_text, begin_process, record_outcome, process_claimed_task,
}

-- How a run of a task ends.
abbrev pub run_result : Settings → (lag : ℕ) → Task → Result (Unit {0})
run_result s lag t = wait_for s.execution_timeout_seconds lag (execute_task t.payload)

-- The task after a run, and the counter of its outcome.
abbrev pub outcome_task : Settings → (now : ℕ) → Task → Result (Unit {0}) → Task
outcome_task s now t (ok _) = record t { status = succeeded; last_error = none }
outcome_task s now t (err e) = failed_task s now t (failure_text s e)

abbrev pub outcome_counter : Settings → Task → Result (Unit {0}) → Counter
outcome_counter s t (ok _) = Metrics.succeeded
outcome_counter s t (err e) = failed_counter s t

pub outcome_task-facts :
    (s : Settings) (now : ℕ) (t : Task) (r : Result (Unit {0}))
    → t.status ≡ running
    → SameIdentity t (outcome_task s now t r) × (t.status ≢ (outcome_task s now t r).status)
outcome_task-facts s now t (ok _) h = ground arith
outcome_task-facts s now t (err e) h =
    let (kept, changed) = failed_task_facts s now t (failure_text s e) in (kept, changed h)

module _ (D : Database) where
  open D use {
    Db, find, find-id, session_get, session_get-none, session_get-some, flush, flush_found,
    flush_missing,
  }

  pub begin_process_lem :
      (task_id : ℕ) (d : Db) (t : Task)
      → find task_id d ≡ some t
      → begin_process D task_id d ≡ (if t.status == running then some t else none)
  unfolding begin_process
  begin_process_lem task_id d t found = ground (arith, session_get-none task_id d)

  -- The write of an outcome, by what the flush comes to.
  record_outcome-flush :
      (s : Settings) (now : Clock) (t : Task) (task_id : ℕ) (r : Result (Unit {0})) (w : World Db)
      (d' : Db)
      → Fits s now.app
      → flush now.db t (outcome_task s now.app t r) w.db ≡ ok d'
      → record_outcome D s now t task_id r w
        ≡ (ok tt, record { db = d'; metrics = inc (outcome_counter s t r) w.metrics })
  unfolding record_outcome
  record_outcome-flush s now t task_id (ok _) w d' f e =
      ground (arith, session_get-some t task_id w.db)
  record_outcome-flush s now t task_id (err x) w d' f e = ground (
    arith,
    session_get-some t task_id w.db,
    apply_failure_lem s now.app t (failure_text s x) w.metrics f,
  )

  record_outcome-stale :
      (s : Settings) (now : Clock) (t : Task) (task_id : ℕ) (r : Result (Unit {0})) (w : World Db)
      → Fits s now.app
      → flush now.db t (outcome_task s now.app t r) w.db ≡ err stale_data_error
      → (m : Metrics) × (record_outcome D s now t task_id r w
          ≡ (err stale_data_error, record { db = w.db; metrics = m }))
  unfolding record_outcome
  record_outcome-stale s now t task_id (ok _) w f e =
      (w.metrics, ground (arith, session_get-some t task_id w.db))
  record_outcome-stale s now t task_id (err x) w f e = (
    inc (failed_counter s t) w.metrics,
    ground (
      arith,
      session_get-some t task_id w.db,
      apply_failure_lem s now.app t (failure_text s x) w.metrics f,
    ),
  )

  -- The transaction that records an outcome writes the columns that differ from the task as it was
  -- read before the run, over whatever row is there now; no other row changes.
  pub record_outcome_lem :
      (s : Settings) (now : Clock) (t row : Task) (r : Result (Unit {0})) (w : World Db)
      → Fits s now.app
      → t.status ≡ running
      → find t.id w.db ≡ some row
      → (d' : Db) × (record_outcome D s now t t.id r w
          ≡ (ok tt, record { db = d'; metrics = inc (outcome_counter s t r) w.metrics }))
        × ((j : ℕ)
            → find j d' ≡ (
                if t.id == j
                then some (merge now.db t (outcome_task s now.app t r) row)
                else find j w.db))
  record_outcome_lem s now t row r w f run there =
      let (kept, changed) = outcome_task-facts s now.app t r run in
      let (d', e, rows) =
        flush_found now.db t (outcome_task s now.app t r) row w.db changed kept there in
      (d', record_outcome-flush s now t t.id r w d' f e, rows)

  -- Where the row is gone, the flush raises and no row changes.
  pub record_outcome_missing :
      (s : Settings) (now : Clock) (t : Task) (r : Result (Unit {0})) (w : World Db)
      → Fits s now.app
      → t.status ≡ running
      → find t.id w.db ≡ none
      → (m : Metrics) × (record_outcome D s now t t.id r w
          ≡ (err stale_data_error, record { db = w.db; metrics = m }))
  record_outcome_missing s now t r w f run gone =
      let (kept, changed) = outcome_task-facts s now.app t r run in
      record_outcome-stale s now t t.id r w f
        (flush_missing now.db t (outcome_task s now.app t r) w.db changed gone)

  -- A task that is missing, or is not running when its turn comes, is left alone: nothing is executed,
  -- written or counted.
  process_claimed_task_skips :
      (s : Settings) (now : Clock) (lag : ℕ) (between : World Db → World Db) (task_id : ℕ)
      (w : World Db)
      → ((t : Task) → find task_id w.db ≡ some t → t.status ≢ running)
      → process_claimed_task D s now lag between task_id w ≡ (ok tt, w)
  unfolding process_claimed_task
  process_claimed_task_skips s now lag between task_id w h =
      elim (Option-cases (find task_id w.db)) [
        | inl missing ↦ ground (arith, session_get-none task_id w.db)
        | inr (t, found) ↦
            ground
              (arith, session_get-none task_id w.db, h t found, status_beq_iff t.status running)
      ]

  process-held :
      (s : Settings) (now : Clock) (lag : ℕ) (between : World Db → World Db) (t : Task)
      (w : World Db)
      → find t.id w.db ≡ some t
      → t.status ≡ running
      → process_claimed_task D s now lag between t.id w
        ≡ record_outcome D s now t t.id (run_result s lag t) (between w)
  unfolding process_claimed_task
  process-held s now lag between t w found run =
      let e : begin_process D t.id w.db ≡ some t =
        ground (arith, begin_process_lem t.id w.db t found) in
      rw (e, process_claimed_task)

  -- A running task is executed once and its outcome is recorded when the delays fit the calendar, also
  -- when other transactions have rewritten its row meanwhile: the columns in which the outcome differs from the task as it was read
  -- are written over that row, `updated_at` is set, the outcome is counted once, and no other row
  -- changes.
  pub process_claimed_task_lem :
      (s : Settings) (now : Clock) (lag : ℕ) (between : World Db → World Db) (t row : Task)
      (w : World Db)
      → Fits s now.app
      → find t.id w.db ≡ some t
      → t.status ≡ running
      → find t.id (between w).db ≡ some row
      → (w' : World Db) × (process_claimed_task D s now lag between t.id w ≡ (ok tt, w'))
        × (w'.metrics ≡ inc (outcome_counter s t (run_result s lag t)) (between w).metrics)
        × ((j : ℕ)
            → find j w'.db ≡ (
                if t.id == j
                then some (merge now.db t (outcome_task s now.app t (run_result s lag t)) row)
                else find j (between w).db))
  process_claimed_task_lem s now lag between t row w f found run there =
      let (d', e, rows) =
        record_outcome_lem s now t row (run_result s lag t) (between w) f run there in
      (
        record {
          db = d';
          metrics = inc (outcome_counter s t (run_result s lag t)) (between w).metrics;
        },
        rw (process-held s now lag between t w found run) e,
        refl,
        rows,
      )

  -- A task whose row is deleted while it runs makes its processing raise StaleDataError, when the delays
  -- fit the calendar, and no row changes.
  pub process_claimed_task_deleted :
      (s : Settings) (now : Clock) (lag : ℕ) (between : World Db → World Db) (t : Task)
      (w : World Db)
      → Fits s now.app
      → find t.id w.db ≡ some t
      → t.status ≡ running
      → find t.id (between w).db ≡ none
      → (m : Metrics) × (process_claimed_task D s now lag between t.id w
          ≡ (err stale_data_error, record { db = (between w).db; metrics = m }))
  process_claimed_task_deleted s now lag between t w f found run gone =
      let (m, e) = record_outcome_missing s now t (run_result s lag t) (between w) f run gone in
      (m, rw (process-held s now lag between t w found run) e)
