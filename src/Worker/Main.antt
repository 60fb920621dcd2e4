-- ===== src/Worker/Main.antt =====
-- app/worker/worker.py: the worker as a process of its own. Whether the heartbeat file can be touched,
-- in each call, is an argument; the signal handlers and the metrics server are the libraries'.
pub mod Laws
use taskpilot_assessment.Prelude.{ℕ, zero, suc, String, Bool, true, false, Option, List, [], ◌∷◌}
use taskpilot_assessment.Config.{Settings}
use taskpilot_assessment.Logging.{Loggers, configure_logging}
use taskpilot_assessment.Database.{Database, World}
use taskpilot_assessment.Worker.Runner.{Round, run_loop}

-- How often the heartbeat file was touched, and how often the warning about it was logged.
pub record Heartbeat : Type 0 where
  pub touched : ℕ
  pub warned : ℕ

-- `_beat`: an OSError is logged and dropped.
abbrev pub beat : (writable : Bool) → Heartbeat → Heartbeat
beat true h = record h { touched = suc h.touched }
beat false h = record h { warned = suc h.warned }

-- `on_tick` in each of its first calls.
abbrev pub beat_each : (writable : ℕ → Bool) → (calls : ℕ) → Heartbeat → Heartbeat
beat_each writable zero h = h
beat_each writable (suc n) h = beat (writable n) (beat_each writable n h)

-- What the process leaves: the lines of `main` in their order, whether the engine is disposed, and the
-- table.
pub record Process (S : Type 0) : Type 0 where
  pub logged : List String
  pub loggers : Loggers
  pub heartbeat : Heartbeat
  pub disposed : Bool
  pub world : World S

-- No file is touched before the process starts.
abbrev pub no_heartbeat : Heartbeat
no_heartbeat = record { touched = 0; warned = 0 }

module _ (D : Database) where
  open D use {Db}

  -- A signal sets `stop`: before the loop begins, or during one of its rounds.
  unfoldable pub main :
      (level_named : String → Option ℕ)
      → Settings
      → (writable : ℕ → Bool) → (stopped : Bool) → List (Round Db)
      → Loggers
      → World Db
      → Process Db
  unfolding run_loop configure_logging
  main level_named s writable stopped rs loggers w =
      let loop = run_loop D s stopped rs w in
      record {
        logged = "worker_metrics_server_started" ∷ "worker_shutting_down" ∷ "worker_stopped" ∷ [];
        loggers = configure_logging level_named s.log_level loggers;
        heartbeat = beat_each writable loop.beats no_heartbeat;
        disposed = true;
        world = loop.world;
      }
