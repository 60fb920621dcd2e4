-- ===== src/Tests/Worker.antt =====
-- The worker on the small table.
use taskpilot_assessment.Prelude.{
  ℕ, ◌≤◌, ◌≡◌, ◌≢◌, refl, false, none, some, List, [], ◌∷◌, map, arith, All, length, ◌==◌, nat_eq,
  if◌then◌else◌,
}
use taskpilot_assessment.Errors.{Result, ok, err, execution_error, stale_data_error}
use taskpilot_assessment.Config.{default_settings}
use taskpilot_assessment.Models.{Task, TaskStatus, pending, running, succeeded, dead}
use taskpilot_assessment.StateMachine.{can_transition}
use taskpilot_assessment.Metrics.{Metrics, inc, zero_metrics}
use taskpilot_assessment.Database.{World, merge}
use taskpilot_assessment.Database.Memory.{Table, memory}
use taskpilot_assessment.Worker.Failure.{backoff_delay_seconds, apply_failure}
use taskpilot_assessment.Worker.Failure.Laws.{Fits, failed_task, failed_counter, apply_failure_lem}
use taskpilot_assessment.Worker.Reclaim.{reclaim_stale_running}
use taskpilot_assessment.Worker.Reclaim.Laws.{IsReclaim, reclaim_stale_running_lem}
use taskpilot_assessment.Worker.Claim.{claim_due_tasks}
use taskpilot_assessment.Worker.Claim.Laws.{
  IsClaim, claim_due_tasks_lem, claim_due_tasks_oldest_first,
}
use taskpilot_assessment.Worker.Process.{process_claimed_task}
use taskpilot_assessment.Worker.Process.Laws.{
  run_result, outcome_task, outcome_counter, process_claimed_task_lem, process_claimed_task_deleted,
}
use taskpilot_assessment.Worker.Process.Races.{process_claimed_task_revives}
use taskpilot_assessment.Worker.Tick.{run_once}
use taskpilot_assessment.Tests.Data.{
  clock, due, flaky, active, table, world, quiet, kill, drop_active, killed, worker,
}

abbrev statuses : Result ℕ × World Table → List (ℕ × TaskStatus × ℕ)
statuses (r, w) = map (λ t. (t.id, t.status, t.retry_count)) w.db.rows

-- A tick: the stuck task is dead, of the claimed ones the first succeeds and the second waits for its
-- retry, and the active one is left alone.
tick_statuses :
    statuses (run_once memory default_settings quiet world)
    ≡ (1, succeeded, 0) ∷ (2, pending, 1) ∷ (3, dead, 3) ∷ (4, running, 0) ∷ []
unfolding worker
tick_statuses = refl

fits : Fits default_settings 1000000000
unfolding backoff_delay_seconds
fits = omega arith

claim_due_tasks_lem_example :
    (ts : List Task) × (d' : Table) × (claim_due_tasks memory clock 20 (λ j. j == 2) table
      ≡ ok (ts, d'))
    × IsClaim memory clock 20 (λ j. j == 2) table ts d'
claim_due_tasks_lem_example = claim_due_tasks_lem memory clock 20 (λ j. j == 2) table

-- A claim of one task takes the one that was due first.
abbrev table_after : Result (List Task × Table) → Table
table_after (ok (ts, d)) = d
table_after (err e) = table

abbrev first : List Task
first = record due { status = running } ∷ []

abbrev after_one : Table
after_one = table_after (claim_due_tasks memory clock 1 (λ j. false) table)

claim_one : claim_due_tasks memory clock 1 (λ j. false) table ≡ ok (first, after_one)
unfolding worker
claim_one = refl

found_flaky : memory.find 2 table ≡ some flaky
unfolding worker
found_flaky = refl

claim_due_tasks_oldest_first_example :
    (length first ≡ 1) × All (λ u. u.scheduled_at ≤ flaky.scheduled_at) first
claim_due_tasks_oldest_first_example =
    claim_due_tasks_oldest_first memory clock 1 (λ j. false) table after_one first flaky claim_one
      found_flaky refl (omega arith) refl refl

apply_failure_lem_example : apply_failure default_settings 1000000000 flaky "boom" zero_metrics ≡ (
  ok (failed_task default_settings 1000000000 flaky "boom"),
  inc (failed_counter default_settings flaky) zero_metrics,
)
apply_failure_lem_example =
    apply_failure_lem default_settings 1000000000 flaky "boom" zero_metrics fits

found_active : memory.find 4 table ≡ some active
unfolding worker
found_active = refl

found_killed : memory.find 4 (kill world).db ≡ some killed
unfolding worker
found_killed = refl

lost_active : memory.find 4 (drop_active world).db ≡ none
unfolding worker
lost_active = refl

active_fails :
    run_result default_settings 0 active ≡ err (execution_error "payload requested forced failure")
unfolding worker
active_fails = refl

reclaim_stale_running_lem_example :
    (ts : List Task) × (w' : World Table) × (reclaim_stale_running memory default_settings clock
        (λ j. false)
        world
      ≡ (ok (length ts), w'))
    × IsReclaim memory default_settings clock (λ j. false) world ts w'
reclaim_stale_running_lem_example =
    reclaim_stale_running_lem memory default_settings clock (λ j. false) world (omega arith) fits

not_running : (t : Task) → memory.find 1 table ≡ some t → t.status ≢ running
unfolding worker
not_running t e = ground arith

process_claimed_task_lem_example :
    (w' : World Table) × (process_claimed_task memory default_settings clock 0 kill 4 world
      ≡ (ok tt, w'))
    × (w'.metrics
        ≡ inc
            (outcome_counter default_settings active (run_result default_settings 0 active))
            zero_metrics)
    × ((j : ℕ)
        → memory.find j w'.db ≡ (
            if 4 == j
            then some (
                merge 1000000000 active
                  (outcome_task default_settings 1000000000 active
                    (run_result default_settings 0 active))
                  killed)
            else memory.find j (kill world).db))
process_claimed_task_lem_example =
    process_claimed_task_lem memory default_settings clock 0 kill active killed world fits
      found_active refl found_killed

process_claimed_task_deleted_example :
    (m : Metrics) × (process_claimed_task memory default_settings clock 0 drop_active 4 world
      ≡ (err stale_data_error, record { db = (drop_active world).db; metrics = m }))
process_claimed_task_deleted_example =
    process_claimed_task_deleted memory default_settings clock 0 drop_active active world fits
      found_active refl lost_active

process_claimed_task_revives_example :
    (row' : Task) × (memory.find 4
        (process_claimed_task memory default_settings clock 0 kill 4 world).1.db
      ≡ some row')
    × (row'.status ≡ pending)
    × (can_transition dead row'.status ≡ false)
process_claimed_task_revives_example =
    process_claimed_task_revives memory default_settings clock 0 kill active killed
      (execution_error "payload requested forced failure") world fits found_active refl active_fails
      (omega arith) found_killed refl
