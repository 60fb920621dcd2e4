-- ===== src/Tests/Cluster.antt =====
-- Two workers that claim at the same time on the small table.
use taskpilot_assessment.Prelude.{◌≡◌, refl, List, [], ◌∷◌, nat_eq}
use taskpilot_assessment.Errors.{Result, ok, err}
use taskpilot_assessment.Models.{Task, running}
use taskpilot_assessment.Database.Changes.{commit_changes}
use taskpilot_assessment.Database.Memory.{Table, memory}
use taskpilot_assessment.Worker.Claim.{claim_each, claim_due_tasks}
use taskpilot_assessment.Worker.Claim.Cluster.{
  Cluster, select, commit, Run, here, next, start, hold, lock, unlock, tally,
}
use taskpilot_assessment.Worker.Claim.Held.{IsExclusive}
use taskpilot_assessment.Worker.Claim.Exclusion.{Run-IsExclusive}
use taskpilot_assessment.Worker.Claim.{due_tasks}
use taskpilot_assessment.Tests.Data.{clock, due, flaky, table, worker}

abbrev c₀ : Cluster Table
c₀ = start memory table

-- Worker 1 selects one task, and worker 2 the next one.
abbrev c₁ : Cluster Table
c₁ = record c₀ {
  locked = lock (due_tasks memory 1000000000 1 c₀.locked table) c₀.locked;
  holding = hold 1 (due_tasks memory 1000000000 1 c₀.locked table) c₀.holding;
}

abbrev c₂ : Cluster Table
c₂ = record c₁ {
  locked = lock (due_tasks memory 1000000000 1 c₁.locked table) c₁.locked;
  holding = hold 2 (due_tasks memory 1000000000 1 c₁.locked table) c₁.holding;
}

c₂-holding : (c₂.holding 1 ≡ due ∷ []) × (c₂.holding 2 ≡ flaky ∷ [])
unfolding worker
c₂-holding = (refl, refl)

-- Worker 1 commits.
abbrev committed : Result Table → Table
committed (ok d) = d
committed (err e) = table

abbrev table₁ : Table
table₁ = committed (commit_changes memory 1000000000 (claim_each (c₂.holding 1)) table)

commits : commit_changes memory 1000000000 (claim_each (c₂.holding 1)) table ≡ ok table₁
unfolding worker
commits = refl

abbrev c₃ : Cluster Table
c₃ = record c₂ {
  db = table₁;
  locked = unlock (c₂.holding 1) c₂.locked;
  holding = hold 1 [] c₂.holding;
  claims = tally (c₂.holding 1) c₂.claims;
}

run₃ : Run memory c₀ c₃
run₃ =
    next (next (next here (select 1 1000000000 1 refl)) (select 2 1000000000 1 refl))
      (commit 1 1000000000 table₁ commits)

Run-IsExclusive_example : IsExclusive memory c₃
Run-IsExclusive_example = Run-IsExclusive memory table c₃ run₃

abbrev claimed_table : Result (List Task × Table) → Table
claimed_table (ok (ts, d)) = d
claimed_table (err e) = table

abbrev after_one : Table
after_one = claimed_table (claim_due_tasks memory clock 1 c₀.locked table)

claim_one :
    claim_due_tasks memory clock 1 c₀.locked table
    ≡ ok (record due { status = running } ∷ [], after_one)
unfolding worker
claim_one = refl
