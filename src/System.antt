-- ===== src/System.antt =====
-- The API and any number of workers on one table: the transactions of app/service.py and of
-- app/worker/processing.py in any order, each by the function that models it. A session that processes
-- a task holds the object that its first transaction read until its second one.
pub mod Bounds
pub mod Rows
pub mod Invariant
pub mod Lifetime
use taskpilot_assessment.Prelude.{
  ℕ, ◌≤◌, ◌≡◌, Bool, Option, none, some, List, ◌==◌, nat_eq, if◌then◌else◌,
}
use taskpilot_assessment.Errors.{Result, ok}
use taskpilot_assessment.Config.{Settings}
use taskpilot_assessment.Models.{Task, TaskStatus}
use taskpilot_assessment.Schemas.{TaskCreate, TaskCreateFields, validate_create}
use taskpilot_assessment.Database.{Database, Clock, World}
use taskpilot_assessment.Service.{commit_new, update_status, delete_task}
use taskpilot_assessment.Time.{seconds}
use taskpilot_assessment.Worker.Failure.Laws.{Fits}
use taskpilot_assessment.Worker.Reclaim.{reclaim_stale_running}
use taskpilot_assessment.Worker.Claim.{claim_due_tasks}
use taskpilot_assessment.Worker.Process.{begin_process, record_outcome}

pub record System (S : Type 0) : Type 0 where
  pub world : World S
  pub held : ℕ → Option Task

abbrev pub holding : ℕ → Option Task → (ℕ → Option Task) → ℕ → Option Task
holding i o f k = if k == i then o else f k

module _ (D : Database) (s : Settings) where
  open D use {Db, find}

  pub data Step (c c' : System Db) : Type 0 where
    -- POST: the transaction of `create_task`, of a request that the validators accept
    create :
        (now : Clock) (id : ℕ) (raw : TaskCreateFields) (body : TaskCreate) (r : Result Task)
        (w : World Db)
        → validate_create s raw ≡ ok body
        → find id c.world.db ≡ none
        → commit_new D now id body c.world ≡ (r, w)
        → c' ≡ record c { world = w }
        → Step c c'
    -- PATCH
    update :
        (now : Clock) (id : ℕ) (target : TaskStatus) (r : Result Task) (w : World Db)
        → update_status D now id target c.world ≡ (r, w)
        → c' ≡ record c { world = w }
        → Step c c'
    -- DELETE
    remove :
        (id : ℕ) (r : Result (Unit {0})) (w : World Db)
        → delete_task D id c.world ≡ (r, w)
        → c' ≡ record c { world = w }
        → Step c c'
    -- The reaper, when the clock is past the timeout and the delays fit the calendar
    reclaim :
        (now : Clock) (locked : ℕ → Bool) (r : Result ℕ) (w : World Db)
        → seconds s.running_task_timeout_seconds ≤ now.app
        → Fits s now.app
        → reclaim_stale_running D s now locked c.world ≡ (r, w)
        → c' ≡ record c { world = w }
        → Step c c'
    claim :
        (now : Clock) (limit : ℕ) (locked : ℕ → Bool) (ts : List Task) (d : Db)
        → claim_due_tasks D now limit locked c.world.db ≡ ok (ts, d)
        → c' ≡ record c { world = record (c.world) { db = d } }
        → Step c c'
    -- The two transactions of `process_claimed_task`, the second with any result of the run, and a
    -- session that is lost between them
    begin :
        (i id : ℕ)
        → c' ≡ record c { held = holding i (begin_process D id c.world.db) c.held }
        → Step c c'
    finish :
        (i : ℕ) (now : Clock) (t : Task) (r r' : Result (Unit {0})) (w : World Db)
        → c.held i ≡ some t
        → Fits s now.app
        → record_outcome D s now t t.id r c.world ≡ (r', w)
        → c' ≡ record { world = w; held = holding i none c.held }
        → Step c c'
    lose : (i : ℕ) → c' ≡ record c { held = holding i none c.held } → Step c c'

  pub data Run (c : System Db) : System Db → Type 0 where
    here : Run c c
    next : {b e : System Db} → Run c b → Step b e → Run c e
