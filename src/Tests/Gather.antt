-- ===== src/Tests/Gather.antt =====
-- The two tasks of a claim on the small table, at the same time.
use mathlib.Core.Path.{subst}
use taskpilot_assessment.Prelude.{
  ℕ, ◌*◌, ◌≤◌, ◌<◌, ◌≡◌, refl, some, false, List, [], ◌∷◌, arith, length, map,
}
use taskpilot_assessment.Errors.{Result, ok, err}
use taskpilot_assessment.Config.{default_settings}
use taskpilot_assessment.Models.{Task, pending, running, succeeded}
use taskpilot_assessment.Database.{World, Clock}
use taskpilot_assessment.Database.Memory.{Table, empty_table, memory}
use taskpilot_assessment.Worker.Claim.{claim_due_tasks}
use taskpilot_assessment.Worker.Failure.{backoff_delay_seconds}
use taskpilot_assessment.Worker.Failure.Laws.{Fits}
use taskpilot_assessment.Worker.Process.{begin_process}
use taskpilot_assessment.Worker.Process.Races.{processed_row}
use taskpilot_assessment.System.{holding}
use taskpilot_assessment.Worker.Gather.{
  Gather, end_run, Step, acquire, release, start, Run, here, next,
}
use taskpilot_assessment.Worker.Gather.Occurrences.{occurrences}
use taskpilot_assessment.Worker.Gather.Invariant.{IsClaimed}
use taskpilot_assessment.Worker.Gather.Laws.{ids_of, gather_lem, claim_due_tasks-IsClaimed}
use taskpilot_assessment.Tests.Data.{clock, world, worker}

abbrev outcome : Result (List Task × Table) → List Task × Table
outcome (ok p) = p
outcome (err e) = ([], empty_table)

abbrev taken : List Task × Table
taken = outcome (claim_due_tasks memory clock 20 (λ j. false) world.db)

takes : claim_due_tasks memory clock 20 (λ j. false) world.db ≡ ok (taken.0, taken.1)
unfolding worker
takes = refl

abbrev first : World Table
first = record world { db = taken.1 }

abbrev two : List ℕ
two = 1 ∷ 2 ∷ []

-- Task 1 and then task 2 acquire the semaphore, and task 2 is the first to release it.
abbrev g₀ : Gather Table
g₀ = start memory default_settings two first

abbrev g₁ : Gather Table
g₁ = record g₀ {
  waiting = 2 ∷ [];
  processing = 1 ∷ [];
  held = holding 1 (begin_process memory 1 first.db) g₀.held;
}

abbrev g₂ : Gather Table
g₂ = record g₁ {
  waiting = [];
  processing = 2 ∷ 1 ∷ [];
  held = holding 2 (begin_process memory 2 first.db) g₁.held;
}

abbrev g₃ : Gather Table
g₃ = record g₂ {
  processing = 1 ∷ [];
  over = 2 ∷ [];
  world = end_run memory default_settings clock 0 2 (g₂.held 2) first;
}

abbrev g₄ : Gather Table
g₄ = record g₃ {
  processing = [];
  over = 1 ∷ 2 ∷ [];
  world = end_run memory default_settings clock 0 1 (g₃.held 1) g₃.world;
}

fits : Fits default_settings 1000000000
unfolding backoff_delay_seconds
fits = omega arith

run₄ : Run memory default_settings g₀ 4 g₄
run₄ =
    next
      (next
        (next (next here (acquire [] (2 ∷ []) 1 refl (omega arith) refl))
          (acquire [] [] 2 refl (omega arith) refl))
        (release [] (1 ∷ []) 2 clock 0 refl fits refl))
      (release [] [] 1 clock 0 refl fits refl)

ids : ids_of taken.0 ≡ two
unfolding worker
ids = refl

statuses : map (λ t. t.status) (g₄.world.db.rows) ≡ succeeded ∷ pending ∷ running ∷ running ∷ []
unfolding worker end_run
statuses = refl

claims : IsClaimed memory default_settings two first
claims =
    subst (λ is. IsClaimed memory default_settings is first) ids
      (claim_due_tasks-IsClaimed memory default_settings clock 20 (λ j. false) world taken.0 taken.1
        takes)

gather_lem_example :
    (length g₄.processing ≤ 5)
    × (4 ≤ 4)
    × (4 < 4 → (g' : Gather Table) × Step memory default_settings g₄ g')
    × (4 ≡ 2 * length two
        → (j : ℕ) → 1 ≤ occurrences j two
        → (t : Task) × (now : Clock) × (lag : ℕ) × (memory.find j first.db ≡ some t)
          × (memory.find j g₄.world.db ≡ some (processed_row default_settings now lag t)))
    × ((j : ℕ) → occurrences j two ≡ 0 → memory.find j g₄.world.db ≡ memory.find j first.db)
gather_lem_example = gather_lem memory default_settings two first 4 g₄ clock claims fits run₄
