-- ===== src/Worker/Process/Races.antt =====
-- Processing a task while nobody else writes its row, and while somebody does.
use taskpilot_assessment.Prelude.{
  ℕ, ◌<◌, ◌≡◌, false, some, arith, ◌==◌, nat_eq, nat_beq_iff, if◌then◌else◌,
}
use taskpilot_assessment.Errors.{Exception, ok, err}
use taskpilot_assessment.Config.{Settings}
use taskpilot_assessment.Models.{Task, pending, running, dead, status_eq, option_eq}
use taskpilot_assessment.StateMachine.{can_transition}
use taskpilot_assessment.Metrics.{inc}
use taskpilot_assessment.Database.{Database, Clock, World, merge}
use taskpilot_assessment.Database.Changes.{touch, merge-locked}
use taskpilot_assessment.Worker.Failure.Laws.{Fits}
use taskpilot_assessment.Worker.Process.{process_claimed_task}
use taskpilot_assessment.Worker.Process.Laws.{
  run_result, outcome_task, outcome_counter, outcome_task-facts, process_claimed_task_lem,
}

-- The row of a task that has been processed.
abbrev pub processed_row : Settings → Clock → (lag : ℕ) → Task → Task
processed_row s now lag t = touch now.db (outcome_task s now.app t (run_result s lag t))

module _ (D : Database) where
  open D use {Db, find}

  -- A running task whose row no other transaction writes meanwhile ends with exactly the outcome of its
  -- run: succeeded with no error, or pending again or dead as after a failed run. It is counted once,
  -- and the rest of the table is as the other transactions left it.
  pub process_claimed_task_undisturbed :
      (s : Settings) (now : Clock) (lag : ℕ) (between : World Db → World Db) (t : Task)
      (w : World Db)
      → Fits s now.app
      → find t.id w.db ≡ some t
      → t.status ≡ running
      → find t.id (between w).db ≡ some t
      → (w' : World Db) × (process_claimed_task D s now lag between t.id w ≡ (ok tt, w'))
        × (w'.metrics ≡ inc (outcome_counter s t (run_result s lag t)) (between w).metrics)
        × ((j : ℕ)
            → find j w'.db
              ≡ (if t.id == j then some (processed_row s now lag t) else find j (between w).db))
  process_claimed_task_undisturbed s now lag between t w f found run there =
      let (w', e, m, rows) = process_claimed_task_lem D s now lag between t t w f found run there in
      let (kept, changed) = outcome_task-facts s now.app t (run_result s lag t) run in
      (
        w',
        e,
        m,
        λ j.
            rw (← merge-locked now.db t (outcome_task s now.app t (run_result s lag t)) kept)
              (rows j),
      )

  -- A task that another transaction makes dead while its run fails, with retries left by what was read
  -- before the run and when the delays fit the calendar, is pending again afterwards, by a transition that the state machine forbids.
  pub process_claimed_task_revives :
      (s : Settings) (now : Clock) (lag : ℕ) (between : World Db → World Db) (t row : Task)
      (e : Exception) (w : World Db)
      → Fits s now.app
      → find t.id w.db ≡ some t
      → t.status ≡ running
      → run_result s lag t ≡ err e
      → t.retry_count < s.max_retries
      → find t.id (between w).db ≡ some row
      → row.status ≡ dead
      → (row' : Task) × (find t.id (process_claimed_task D s now lag between t.id w).1.db
          ≡ some row')
        × (row'.status ≡ pending)
        × (can_transition row.status row'.status ≡ false)
  unfolding can_transition
  process_claimed_task_revives s now lag between t row e w f found run failing more there killed =
      let (w', ended, m, rows) =
        process_claimed_task_lem D s now lag between t row w f found run there in
      let row' : Task = merge now.db t (outcome_task s now.app t (err e)) row in
      let again : row'.status ≡ pending = ground arith in
      (row', rw ended (ground (arith, rows t.id, nat_beq_iff t.id t.id)), again, ground arith)
