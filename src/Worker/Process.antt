-- ===== src/Worker/Process.antt =====
-- app/worker/processing.py: `process_claimed_task` and `_record_failure`. The task is read in one
-- transaction and its outcome is written in another, in the same session; what other transactions
-- commit in between is an argument.
pub mod Laws
pub mod Races
use taskpilot_assessment.Prelude.{
  ℕ, String, Option, none, some, append_text, decimal, ◌==◌, if◌then◌else◌,
}
use taskpilot_assessment.Errors.{
  Exception, api_error, execution_error, value_error, timeout_error, Result, ok, err, ◌>>=◌,
}
use taskpilot_assessment.Config.{Settings}
use taskpilot_assessment.Models.{Task, running, succeeded, status_eq}
use taskpilot_assessment.Metrics
use taskpilot_assessment.Metrics.{Metrics, inc}
use taskpilot_assessment.Database.{Database, Clock, World}
use taskpilot_assessment.Worker.Executor.{execute_task, wait_for}
use taskpilot_assessment.Worker.Failure.{apply_failure}
use taskpilot_assessment.Worker.Reclaim.{close}

-- `str(exc)`; the exceptions below the first three come with no message of the program's.
abbrev pub message : Exception → String
message (api_error _ _ m) = m
message (execution_error m) = m
message (value_error m) = m
message _ = ""

-- The error text of a run: its timeout has one of its own.
unfoldable pub failure_text : Settings → Exception → String
failure_text settings timeout_error =
    append_text "execution exceeded "
      (append_text (decimal settings.execution_timeout_seconds) "s timeout")
failure_text settings e = message e

module _ (D : Database) where
  open D use {Db, session_get, flush}

  -- The first transaction: the object that the session then holds, or nothing to do.
  unfoldable pub begin_process : ℕ → Db → Option Task
  begin_process task_id d = elim (session_get none task_id d) [
    | none ↦ none
    | some task ↦ if task.status == running then some task else none
  ]

  -- `_record_failure`, in the session that holds `held`.
  unfoldable pub record_failure :
      Settings
      → Clock
      → (held : Task) → (task_id : ℕ) → String
      → World Db
      → Result (Unit {0}) × World Db
  record_failure settings now held task_id error w = elim (session_get (some held) task_id w.db) [
    | none ↦ (ok tt, w)
    | some task ↦
        let (r, m) = apply_failure settings now.app task error w.metrics in
        close D tt m w (do task' ← r; flush now.db task task' w.db)
  ]

  -- The transaction after a run that raised nothing.
  unfoldable pub record_success :
      Clock → (held : Task) → (task_id : ℕ) → World Db → Result (Unit {0}) × World Db
  record_success now held task_id w = elim (session_get (some held) task_id w.db) [
    | none ↦ (ok tt, w)
    | some task ↦
        elim (flush now.db task (record task { status = succeeded; last_error = none }) w.db) [
          | err e ↦ (err e, w)
          | ok d ↦ (ok tt, record { db = d; metrics = inc Metrics.succeeded w.metrics })
        ]
  ]

  -- What the run came to.
  unfoldable pub record_outcome :
      Settings
      → Clock
      → (held : Task) → (task_id : ℕ) → Result (Unit {0})
      → World Db
      → Result (Unit {0}) × World Db
  unfolding record_failure record_success failure_text
  record_outcome settings now held task_id (ok _) w = record_success now held task_id w
  record_outcome settings now held task_id (err e) w =
      record_failure settings now held task_id (failure_text settings e) w

  unfoldable pub process_claimed_task :
      Settings
      → Clock
      → (lag : ℕ) → (between : World Db → World Db) → (task_id : ℕ) → World Db
      → Result (Unit {0}) × World Db
  unfolding begin_process record_outcome execute_task wait_for
  process_claimed_task settings now lag between task_id w = elim (begin_process task_id w.db) [
    | none ↦ (ok tt, w)
    | some held ↦
        record_outcome settings now held task_id
          (wait_for settings.execution_timeout_seconds lag (execute_task held.payload)) (between w)
  ]
