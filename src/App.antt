-- ===== src/App.antt =====
-- app/main.py: the lifespan and the wiring of the application. Starlette puts a middleware that is added
-- around those that were added before it.
pub mod Laws
pub mod Serve
use taskpilot_assessment.Prelude.{
  ℕ, zero, suc, true, false, leb, String, Bool, ◌==◌, string_eq, Option, none, some, List, [], ◌∷◌,
  ◌++◌, if◌then◌else◌,
}
use taskpilot_assessment.Errors.{Result}
use taskpilot_assessment.Config.{Settings, insecure_default_api_key, cors_origins}
use taskpilot_assessment.Logging.{Loggers, configure_logging}
use taskpilot_assessment.Http.{Request, Response}
use taskpilot_assessment.Middleware.{Server, Outcome, dispatch}
use taskpilot_assessment.Database.{Database, World}
use taskpilot_assessment.Worker.Runner.{Round, Loop, run_loop}

-- What a lifespan leaves: the lines of the logger `taskpilot.app` in their order, the loggers, the loop
-- of the worker if there was one, and the table.
pub record Lifespan (S : Type 0) : Type 0 where
  pub logged : List String
  pub loggers : Loggers
  pub worker : Option (Loop S)
  pub world : World S

abbrev pub insecure_key_line : Settings → List String
insecure_key_line s =
    if s.api_key == insecure_default_api_key then "insecure_api_key_in_use" ∷ [] else []

-- The lines before the `yield`.
abbrev pub start_up : Settings → List String
start_up s =
    insecure_key_line s
    ++ (if s.run_worker then "in_process_worker_started" ∷ [] else [])
    ++ "api_startup_complete" ∷ []

abbrev world_after : {S : Type 0} → Option (Loop S) → World S → World S
world_after none w = w
world_after (some l) w = l.world

module _ (D : Database) where
  open D use {Db}

  -- `worker_stop.set()`, when the worker has begun `begun` rounds: each round from that one on, the list
  -- beginning with the round `i`, finds the event set by the end of its wait, and no earlier one does.
  unfoldable pub set_stop : (begun i : ℕ) → List (Round Db) → List (Round Db)
  set_stop begun i [] = []
  set_stop begun i (r ∷ rs) = record r { stops = leb begun i } ∷ set_stop begun (suc i) rs

  -- `await worker_task`: the loop to its end, with the event as the shutdown leaves it, which may come
  -- before the loop begins.
  unfoldable pub await_worker : Settings → (begun : ℕ) → List (Round Db) → World Db → Loop Db
  unfolding set_stop run_loop
  await_worker s zero rs w = run_loop D s true (set_stop 0 1 rs) w
  await_worker s (suc n) rs w = run_loop D s false (set_stop (suc n) 1 rs) w

  -- After the `yield`: the lines, and the worker if there is one.
  unfoldable pub shut_down :
      Settings → (begun : ℕ) → List (Round Db) → World Db → List String × Option (Loop Db)
  unfolding await_worker
  shut_down s begun rs w =
      if s.run_worker
      then (
        "in_process_worker_stopped" ∷ "api_shutdown_complete" ∷ [],
        some (await_worker s begun rs w),
      )
      else ("api_shutdown_complete" ∷ [], none)

  -- `served` is what the requests commit before the first round of the worker, and all that they commit
  -- if there is no worker; what they commit later is in the rounds. The worker has begun `begun` rounds
  -- when the application is shut down.
  unfoldable pub lifespan :
      (level_named : String → Option ℕ)
      → Settings
      → (served : World Db → World Db) → (begun : ℕ) → List (Round Db)
      → Loggers
      → World Db
      → Lifespan Db
  unfolding configure_logging shut_down
  lifespan level_named s served begun rs loggers w =
      let (lines, worker) = shut_down s begun rs (served w) in
      record {
        logged = start_up s ++ lines;
        loggers = configure_logging level_named s.log_level loggers;
        worker = worker;
        world = world_after worker (served w);
      }

-- The middlewares of the application.
pub data Layer : Type 0 where
  cors : (allow_origins : List String) → Layer
  request_logging : Layer

-- `app.add_middleware`: the list begins with the outermost.
abbrev pub add_middleware : Layer → List Layer → List Layer
add_middleware layer layers = layer ∷ layers

abbrev pub add_cors : List String → List Layer → List Layer
add_cors [] layers = layers
add_cors (o ∷ os) layers = add_middleware (cors (o ∷ os)) layers

unfoldable pub create_app : Settings → List Layer
unfolding cors_origins
create_app s = add_middleware request_logging (add_cors (cors_origins s) [])
