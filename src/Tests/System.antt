-- ===== src/Tests/System.antt =====
-- A task from its creation to its success, on an empty table, and a request afterwards.
use taskpilot_assessment.Prelude.{
  ℕ, ◌≡◌, ◌≢◌, ◌⊎◌, refl, false, none, some, List, [], arith, inl, decimal, strip,
}
use taskpilot_assessment.Errors.{Result, ok, err}
use taskpilot_assessment.Config.{default_settings}
use taskpilot_assessment.Json.{end, dumps_size}
use taskpilot_assessment.Models.{Task, pending, running, succeeded}
use taskpilot_assessment.Metrics.{zero_metrics}
use taskpilot_assessment.Schemas.{TaskCreate, TaskCreateFields, validate_create}
use taskpilot_assessment.Database.{World}
use taskpilot_assessment.Database.Memory.{Table, empty_table, memory}
use taskpilot_assessment.Service.{new_task, commit_new, update_status}
use taskpilot_assessment.Worker.Claim.{claim_due_tasks}
use taskpilot_assessment.Worker.Failure.{backoff_delay_seconds}
use taskpilot_assessment.Worker.Failure.Laws.{Fits}
use taskpilot_assessment.Worker.Process.{begin_process, record_outcome}
use taskpilot_assessment.System.{
  System, Step, create, update, claim, begin, finish, Run, here, next, holding,
}
use taskpilot_assessment.System.Bounds.{WithinBounds}
use taskpilot_assessment.System.Rows.{RowChange, Step-RowChange}
use taskpilot_assessment.System.Invariant.{start, Run-WithinBounds}
use taskpilot_assessment.System.Lifetime.{Step-terminal}
use taskpilot_assessment.Tests.Data.{clock, worker, service}

abbrev raw : TaskCreateFields
raw = record { title = "charge card "; payload = end; scheduled_at = none; idempotency_key = none }

abbrev body : TaskCreate
body = record { title = "charge card"; payload = end; scheduled_at = none; idempotency_key = none }

raw_valid : validate_create default_settings raw ≡ ok body
unfolding validate_create dumps_size decimal strip
raw_valid = refl

abbrev w₀ : World Table
w₀ = record { db = empty_table; metrics = zero_metrics }

empty_within : (i : ℕ) (u : Task) → memory.find i w₀.db ≡ some u → WithinBounds default_settings u
unfolding service
empty_within i u h = ground arith

abbrev c₀ : System Table
c₀ = start memory default_settings w₀

absent : memory.find 9 empty_table ≡ none
unfolding service
absent = refl

-- The task is created,
abbrev c₁ : System Table
c₁ = record c₀ { world = (commit_new memory clock 9 body w₀).1 }

-- claimed,
abbrev claimed : Result (List Task × Table) → List Task × Table
claimed (ok p) = p
claimed (err e) = ([], empty_table)

abbrev claim₁ : List Task × Table
claim₁ = claimed (claim_due_tasks memory clock 20 (λ j. false) c₁.world.db)

claims : claim_due_tasks memory clock 20 (λ j. false) c₁.world.db ≡ ok (claim₁.0, claim₁.1)
unfolding worker service
claims = refl

abbrev c₂ : System Table
c₂ = record c₁ { world = record (c₁.world) { db = claim₁.1 } }

-- read by session 1,
abbrev c₃ : System Table
c₃ = record c₂ { held = holding 1 (begin_process memory 9 c₂.world.db) c₂.held }

abbrev taken : Task
taken = record (new_task 1000000000 9 body) { status = running }

holds : c₃.held 1 ≡ some taken
unfolding worker service
holds = refl

-- and recorded as a success.
abbrev outcome : Result (Unit {0}) × World Table
outcome = record_outcome memory default_settings clock taken 9 (ok tt) c₃.world

abbrev c₄ : System Table
c₄ = record { world = outcome.1; held = holding 1 none c₃.held }

fits : Fits default_settings 1000000000
unfolding backoff_delay_seconds
fits = omega arith

run₄ : Run memory default_settings c₀ c₄
run₄ =
    next
      (next
        (next
          (next here (
            create clock 9 raw body (commit_new memory clock 9 body w₀).0
              (commit_new memory clock 9 body w₀).1 raw_valid absent refl refl))
          (claim clock 20 (λ j. false) (claim₁.0) (claim₁.1) claims refl))
        (begin 1 9 refl))
      (finish 1 clock taken (ok tt) (outcome.0) (outcome.1) holds fits refl refl)

abbrev done : Task
done = record taken { status = succeeded }

found₄ : memory.find 9 c₄.world.db ≡ some done
unfolding worker service
found₄ = refl

Run-WithinBounds_example : WithinBounds default_settings done
Run-WithinBounds_example =
    Run-WithinBounds memory default_settings w₀ c₄ 9 done empty_within run₄ found₄

-- A request to retry it is refused.
abbrev c₅ : System Table
c₅ = record c₄ { world = (update_status memory clock 9 pending c₄.world).1 }

step₅ : Step memory default_settings c₄ c₅
step₅ =
    update clock 9 pending (update_status memory clock 9 pending c₄.world).0
      (update_status memory clock 9 pending c₄.world).1 refl refl

found₅ : memory.find 9 c₅.world.db ≡ some done
unfolding worker service
found₅ = refl

none_held : (i : ℕ) (l : Task) → c₄.held i ≡ some l → l.id ≢ 9
none_held i l h = ground arith

Step-terminal_example : (memory.find 9 c₅.world.db ≡ some done) ⊎ (memory.find 9 c₅.world.db ≡ none)
Step-terminal_example =
    Step-terminal memory default_settings w₀ c₄ c₅ 9 done empty_within run₄ step₅ found₄ (inl refl)
      none_held

unheld : (i : ℕ) (t : Task) → c₁.held i ≡ some t → t.status ≡ running
unheld i t h = ground arith

Step-RowChange_example :
    RowChange default_settings c₁ 9 (memory.find 9 c₁.world.db) (memory.find 9 c₂.world.db)
Step-RowChange_example =
    Step-RowChange memory default_settings c₁ c₂ 9 unheld
      (claim clock 20 (λ j. false) (claim₁.0) (claim₁.1) claims refl)
