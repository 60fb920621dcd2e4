-- ===== src/Worker/Gather.antt =====
-- app/worker/processing.py: the tasks of one tick at the same time, as `asyncio.gather` runs them under
-- the semaphore of `run_once`: the two transactions of each, in any order that the semaphore allows.
pub mod Occurrences
pub mod Invariant
pub mod Laws
use taskpilot_assessment.Prelude.{
  ℕ, suc, ◌<◌, ◌≡◌, max, Option, none, some, List, [], ◌∷◌, ◌++◌, length,
}
use taskpilot_assessment.Config.{Settings}
use taskpilot_assessment.Models.{Task}
use taskpilot_assessment.Database.{Database, Clock, World}
use taskpilot_assessment.Worker.Executor.{execute_task, wait_for}
use taskpilot_assessment.Worker.Failure.Laws.{Fits}
use taskpilot_assessment.Worker.Process.{begin_process, record_outcome}
use taskpilot_assessment.System.{holding}

-- The tasks that wait for the semaphore, those that hold it, and those whose coroutine has ended; what
-- the session of each task holds; and the table.
pub record Gather (S : Type 0) : Type 0 where
  pub waiting : List ℕ
  pub processing : List ℕ
  pub over : List ℕ
  pub held : ℕ → Option Task
  pub world : World S

-- `asyncio.Semaphore(max(1, settings.worker_concurrency))`
abbrev pub permits : Settings → ℕ
permits s = max 1 s.worker_concurrency

module _ (D : Database) (s : Settings) where
  open D use {Db}

  -- What follows the first transaction, for what the session then holds.
  unfoldable pub end_run : Clock → (lag : ℕ) → (id : ℕ) → Option Task → World Db → World Db
  unfolding record_outcome execute_task wait_for
  end_run now lag id none w = w
  end_run now lag id (some t) w =
      (record_outcome D s now t id
        (wait_for s.execution_timeout_seconds lag (execute_task t.payload)) w).1

  -- `_run`: the semaphore is acquired and the task is read; its outcome is written and the semaphore is
  -- released. Every delay fits the calendar.
  pub data Step (g g' : Gather Db) : Type 0 where
    acquire :
        (front back : List ℕ) (id : ℕ)
        → g.waiting ≡ front ++ id ∷ back
        → length g.processing < permits s
        → g' ≡ record g {
          waiting = front ++ back;
          processing = id ∷ g.processing;
          held = holding id (begin_process D id g.world.db) g.held;
        }
        → Step g g'
    release :
        (front back : List ℕ) (id : ℕ) (now : Clock) (lag : ℕ)
        → g.processing ≡ front ++ id ∷ back
        → Fits s now.app
        → g' ≡ record g {
          processing = front ++ back;
          over = id ∷ g.over;
          world = end_run now lag id (g.held id) g.world;
        }
        → Step g g'

  abbrev pub start : List ℕ → World Db → Gather Db
  start ids w = record { waiting = ids; processing = []; over = []; held = λ i. none; world = w }

  -- The runs with their number of steps.
  pub data Run (c : Gather Db) : ℕ → Gather Db → Type 0 where
    here : Run c 0 c
    next : {k : ℕ} {b e : Gather Db} → Run c k b → Step b e → Run c (suc k) e
