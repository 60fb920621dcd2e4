-- ===== src/Tests/App.antt =====
-- The application, a process of the worker and the loggers, with the settings' defaults and changes.
use taskpilot_assessment.Prelude.{
  ℕ, ◌≡◌, ◌⊎◌, refl, String, true, false, Option, none, some, List, [], ◌∷◌, ◌++◌, take, length,
  arith, strip, split,
}
use taskpilot_assessment.Config.{Settings, default_settings, cors_origins}
use taskpilot_assessment.Database.Memory.{Table, memory}
use taskpilot_assessment.Logging.{Logger, Loggers, json_handler}
use taskpilot_assessment.App.{lifespan}
use taskpilot_assessment.App.Laws.{IsWarning, lifespan_lem}
use taskpilot_assessment.Worker.Runner.{Loop}
use taskpilot_assessment.Worker.Runner.Laws.{ticks}
use taskpilot_assessment.Tests.Data.{world}
use taskpilot_assessment.Tests.Endpoints.{shift}

abbrev open_settings : Settings
open_settings = record default_settings { cors_allow_origins = " https://a.example, ," }

open_origins : cors_origins open_settings ≡ "https://a.example" ∷ []
unfolding cors_origins split strip
open_origins = refl

abbrev bare_logger : Logger
bare_logger = record { handlers = json_handler ∷ json_handler ∷ []; level = 30; propagate = true }

abbrev loggers : Loggers
loggers = record { root_logger = bare_logger; named = λ n. bare_logger }

abbrev level_named : String → Option ℕ
level_named n = none

-- The shutdown comes in the second of three rounds.
lifespan_lem_example :
    let life = lifespan memory level_named default_settings (λ w. w) 2 shift loggers world in
    (warning : List String) × IsWarning memory default_settings warning
    × (((true ≡ true)
          × (life.world ≡ ticks memory default_settings (take 2 shift) world)
          × ((loop : Loop Table) × (life.worker ≡ some loop) × (length loop.waits ≡ 2))
          × (life.logged
              ≡ warning
                ++ "in_process_worker_started" ∷ "api_startup_complete"
                  ∷ "in_process_worker_stopped" ∷ "api_shutdown_complete" ∷ []))
        ⊎ ((true ≡ false)
            × (life.world ≡ world)
            × (life.worker ≡ none)
            × (life.logged ≡ warning ++ "api_startup_complete" ∷ "api_shutdown_complete" ∷ [])))
lifespan_lem_example =
    lifespan_lem memory level_named default_settings (λ w. w) 2 shift loggers world (omega arith)
