-- ===== src/Tests/Reaper.antt =====
-- The reaper on the small table.
use taskpilot_assessment.Prelude.{ℕ, ◌≡◌, ◌⊎◌, refl, some, false, arith}
use taskpilot_assessment.Errors.{Result, ok}
use taskpilot_assessment.Config.{default_settings}
use taskpilot_assessment.Database.{World}
use taskpilot_assessment.Database.Memory.{Table, memory}
use taskpilot_assessment.Worker.Failure.{backoff_delay_seconds}
use taskpilot_assessment.Worker.Failure.Laws.{Fits}
use taskpilot_assessment.Worker.Reclaim.{reclaim_stale_running}
use taskpilot_assessment.Worker.Reclaim.Laws.{reclaimed_row}
use taskpilot_assessment.Worker.Reclaim.Recovery.{reclaim_stale_running_complete}
use taskpilot_assessment.Tests.Data.{clock, stuck, table, world, worker}

abbrev run : Result ℕ × World Table
run = reclaim_stale_running memory default_settings clock (λ j. false) world

fits : Fits default_settings 1000000000
unfolding backoff_delay_seconds
fits = omega arith

-- The worker of the task 3 was lost, and the reaper has room for it.
reaps : reclaim_stale_running memory default_settings clock (λ j. false) world ≡ (ok 1, run.1)
unfolding worker
reaps = refl

found_stuck : memory.find 3 table ≡ some stuck
unfolding worker
found_stuck = refl

reclaim_stale_running_complete_example :
    (memory.find 3 run.1.db ≡ some (reclaimed_row default_settings clock stuck))
    ⊎ ((◌≡◌ {A = ℕ} 1 20) × (memory.find 3 run.1.db ≡ some stuck))
reclaim_stale_running_complete_example =
    reclaim_stale_running_complete memory default_settings clock (λ j. false) world run.1 1 stuck
      (omega arith) fits reaps found_stuck refl (omega arith) refl
