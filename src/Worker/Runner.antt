-- ===== src/Worker/Runner.antt =====
-- app/worker/runner.py: the polling loop. The list of its rounds, with what each meets and whether
-- `stop` is set by the end of its wait, is an argument: the loop ends with the first round by whose end it
-- is set. `beats` counts the calls of `on_tick`.
pub mod Laws
use taskpilot_assessment.Prelude.{ℕ, suc, ◌-◌, ◌*◌, Bool, List, [], ◌∷◌, if◌then◌else◌}
use taskpilot_assessment.Config.{Settings}
use taskpilot_assessment.Database.{Database, World}
use taskpilot_assessment.Worker.Tick.{Surroundings, run_once}

-- Times are in microseconds; `elapsed` is how long the tick took.
pub record Round (S : Type 0) : Type 0 where
  pub surroundings : Surroundings S
  pub elapsed : ℕ
  -- what other transactions commit during the wait
  pub meanwhile : World S → World S
  pub stops : Bool

pub record Loop (S : Type 0) : Type 0 where
  pub beats : ℕ
  pub world : World S
  -- the timeouts of the waits, the latest first
  pub waits : List ℕ

-- `max(0.0, interval - elapsed)`: subtraction stops at 0.
abbrev pub wait_time : (interval elapsed : ℕ) → ℕ
wait_time interval elapsed = interval * 1000000 - elapsed

module _ (D : Database) where
  open D use {Db}

  -- A round: the tick, whose exception is logged and dropped, the heartbeat, and the wait.
  unfoldable pub round : Settings → Round Db → Loop Db → Loop Db
  round s r l = record {
    beats = suc l.beats;
    world = r.meanwhile (run_once D s r.surroundings l.world).1;
    waits = wait_time s.worker_poll_interval_seconds r.elapsed ∷ l.waits;
  }

  unfoldable pub rounds : Settings → List (Round Db) → Loop Db → Loop Db
  unfolding round
  rounds s [] l = l
  rounds s (r ∷ rs) l =
      let l' = round s r l in let rest = rounds s rs l' in if r.stops then l' else rest

  -- `stopped` is whether `stop` is set before the loop begins.
  unfoldable pub run_loop : Settings → (stopped : Bool) → List (Round Db) → World Db → Loop Db
  unfolding rounds
  run_loop s stopped rs w =
      let start : Loop Db = record { beats = 1; world = w; waits = [] } in
      if stopped then start else rounds s rs start
