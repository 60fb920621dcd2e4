-- ===== src/Tests/Schedule.antt =====
-- The reaper while a tick runs the tasks that it has claimed from the small table.
use taskpilot_assessment.Prelude.{ℕ, ◌≡◌, ◌≤◌, length, refl, true, false, List, [], ◌∷◌, map, arith}
use taskpilot_assessment.Errors.{Result, ok, err}
use taskpilot_assessment.Config.{Settings, default_settings}
use taskpilot_assessment.Models.{Task, TaskStatus, pending, dead}
use taskpilot_assessment.Database.{World, Clock, has_id}
use taskpilot_assessment.Database.Memory.{Table, empty_table, memory}
use taskpilot_assessment.Worker.Failure.{backoff_delay_seconds}
use taskpilot_assessment.Worker.Failure.Laws.{Fits}
use taskpilot_assessment.Worker.Reclaim.{reclaim_stale_running}
use taskpilot_assessment.Worker.Claim.{claim_due_tasks}
use taskpilot_assessment.Worker.Schedule.{run_times, last_end, repeat}
use taskpilot_assessment.Worker.Schedule.Safety.{reclaim-claim_due_tasks}
use taskpilot_assessment.Tests.Data.{clock, world, worker}

abbrev outcome : Result (List Task × Table) → List Task × Table
outcome (ok p) = p
outcome (err e) = ([], empty_table)

abbrev taken : List Task × Table
taken = outcome (claim_due_tasks memory clock 20 (λ j. false) world.db)

takes : claim_due_tasks memory clock 20 (λ j. false) world.db ≡ ok (taken.0, taken.1)
unfolding worker
takes = refl

abbrev ran : World Table
ran = record world { db = taken.1 }

-- Twenty seconds after the claim.
abbrev soon : Clock
soon = record { app = 1020000000; db = 1020000000 }

abbrev reap : Result ℕ × World Table
reap = reclaim_stale_running memory default_settings soon (λ j. false) ran

reaps : reap ≡ (ok 1, reap.1)
unfolding worker
reaps = refl

two_taken : has_id 1 taken.0 ≡ true
unfolding worker
two_taken = refl

fits : Fits default_settings 1020000000
unfolding backoff_delay_seconds
fits = omega arith

abbrev halves : List ℕ
halves = 30000000 ∷ 30000000 ∷ []

many : length halves ≡ length taken.0
unfolding worker
many = refl

in_time : 1020000000 ≤ last_end 1000000000 (run_times default_settings 1000000000 halves)
unfolding run_times
in_time = omega arith

reclaim-claim_due_tasks_example : memory.find 1 reap.1.db ≡ memory.find 1 taken.1
reclaim-claim_due_tasks_example =
    reclaim-claim_due_tasks memory default_settings clock (λ j. false) world.db taken.1 taken.0
      1000000000 30000000 4 halves soon (λ j. false) ran reap.1 1 1 takes many
      (omega arith, (omega arith, tt)) (omega arith) (omega arith) in_time (omega arith) fits reaps
      two_taken refl

-- With one permit, a batch of tasks that run for their thirty seconds ends ten minutes after the claim,
-- and the reaper has taken those that wait five minutes before.
abbrev narrow : Settings
narrow = record default_settings { worker_concurrency = 1 }

ends_late : last_end 1000000000 (run_times narrow 1000000000 (repeat 20 30000000)) ≡ 1600000000
unfolding run_times
ends_late = refl

abbrev midway : Clock
midway = record { app = 1301000000; db = 1301000000 }

abbrev statuses : World Table → List (ℕ × TaskStatus × ℕ)
statuses w = map (λ t. (t.id, t.status, t.retry_count)) w.db.rows

taken_twice :
    statuses (reclaim_stale_running memory narrow midway (λ j. false) ran).1
    ≡ (1, pending, 1) ∷ (2, pending, 1) ∷ (3, dead, 3) ∷ (4, pending, 1) ∷ []
unfolding worker
taken_twice = refl
