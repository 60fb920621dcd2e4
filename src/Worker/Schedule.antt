-- ===== src/Worker/Schedule.antt =====
-- app/worker/processing.py: when the tasks of one tick run, as the semaphore of `run_once` lets them. A
-- run is the time from the acquisition of the semaphore to its release; how long each takes is given.
pub mod Laws
pub mod Safety
use taskpilot_assessment.Prelude.{
  ℕ, zero, suc, ◌+◌, List, [], ◌∷◌, min, max, ◌==◌, nat_eq, if◌then◌else◌,
}
use taskpilot_assessment.Config.{Settings}
use taskpilot_assessment.Worker.Gather.{permits}

-- When a task acquires the semaphore, and when it releases it.
pub record Span : Type 0 where
  pub begins : ℕ
  pub ends : ℕ

-- The earliest of some times.
abbrev pub earliest : ℕ → List ℕ → ℕ
earliest t [] = t
earliest t (u ∷ us) = min t (earliest u us)

-- The permit that is free at `t` is free again after the run.
abbrev pub occupy : (t duration : ℕ) → List ℕ → List ℕ
occupy t duration [] = []
occupy t duration (u ∷ us) = if u == t then (u + duration) ∷ us else u ∷ occupy t duration us

-- The runs in the order in which the tasks acquire the semaphore, from the times when each permit is
-- free: a task that waits begins as soon as a permit is free.
unfoldable pub run_each : (free durations : List ℕ) → List Span
run_each free [] = []
run_each [] (d ∷ ds) = []
run_each (u ∷ us) (d ∷ ds) =
    let t = earliest u us in record { begins = t; ends = t + d } ∷ run_each (occupy t d (u ∷ us)) ds

abbrev pub repeat : ℕ → ℕ → List ℕ
repeat zero t = []
repeat (suc n) t = t ∷ repeat n t

-- The runs of a tick whose tasks ask for the semaphore at `now`.
unfoldable pub run_times : Settings → (now : ℕ) → (durations : List ℕ) → List Span
unfolding run_each
run_times s now durations = run_each (repeat (permits s) now) durations

-- When `asyncio.gather` returns.
abbrev pub last_end : ℕ → List Span → ℕ
last_end now [] = now
last_end now (x ∷ xs) = max x.ends (last_end now xs)
