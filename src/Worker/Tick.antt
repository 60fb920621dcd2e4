-- ===== src/Worker/Tick.antt =====
-- app/worker/processing.py: `run_once`, one tick of the worker.
pub mod Laws
use taskpilot_assessment.Prelude.{ℕ, Bool, List, [], ◌∷◌, length}
use taskpilot_assessment.Errors.{Exception, Result, ok, err}
use taskpilot_assessment.Config.{Settings}
use taskpilot_assessment.Models.{Task}
use taskpilot_assessment.Database.{Database, Clock, World}
use taskpilot_assessment.Worker.Reclaim.{reclaim_stale_running}
use taskpilot_assessment.Worker.Claim.{claim_due_tasks}
use taskpilot_assessment.Worker.Process.{process_claimed_task}

-- What a tick meets in its surroundings: the clocks, the rows that others have locked, and for each
-- task how late it is resumed and what other transactions commit while it runs.
pub record Surroundings (S : Type 0) : Type 0 where
  pub reclaim_clock : Clock
  pub reclaim_locked : ℕ → Bool
  pub claim_clock : Clock
  pub claim_locked : ℕ → Bool
  pub clock : ℕ → Clock
  pub lag : ℕ → ℕ
  pub between : ℕ → World S → World S

-- `gather` raises the first exception, when the other tasks have gone on.
abbrev first_error : Result (Unit {0}) → Result (Unit {0}) → Result (Unit {0})
first_error (err e) _ = err e
first_error (ok _) r = r

module _ (D : Database) where
  open D use {Db}

  -- The claimed tasks, each in a session of its own, one after the other.
  unfoldable pub process_all :
      Settings → Surroundings Db → List Task → World Db → Result (Unit {0}) × World Db
  process_all settings env [] w = (ok tt, w)
  process_all settings env (t ∷ ts) w =
      let (r, w') =
        process_claimed_task D settings (env.clock t.id) (env.lag t.id) (env.between t.id) t.id w in
      let (r', w'') = process_all settings env ts w' in (first_error r r', w'')

  abbrev counted : ℕ → Result (Unit {0}) × World Db → Result ℕ × World Db
  counted n (ok _, w) = (ok n, w)
  counted n (err e, w) = (err e, w)

  unfoldable pub claim_and_process : Settings → Surroundings Db → World Db → Result ℕ × World Db
  unfolding process_all claim_due_tasks
  claim_and_process settings env w =
      elim (claim_due_tasks D env.claim_clock settings.worker_batch_size env.claim_locked w.db) [
        | err e ↦ (err e, w)
        | ok (tasks, d) ↦
            counted (length tasks) (process_all settings env tasks (record w { db = d }))
      ]

  unfoldable pub run_once : Settings → Surroundings Db → World Db → Result ℕ × World Db
  unfolding claim_and_process reclaim_stale_running
  run_once settings env w =
      let (r, w') = reclaim_stale_running D settings env.reclaim_clock env.reclaim_locked w in
      elim r [ err e ↦ (err e, w') | ok _ ↦ claim_and_process settings env w' ]
