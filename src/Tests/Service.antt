-- ===== src/Tests/Service.antt =====
-- The service on the small table.
use taskpilot_assessment.Prelude.{String, ◌≡◌, refl, true, Option, none, some, [], ◌∷◌, nat_eq}
use taskpilot_assessment.Errors.{ok, err}
use taskpilot_assessment.Json.{end}
use taskpilot_assessment.Models.{Task, pending, succeeded, dead}
use taskpilot_assessment.Models.Columns.{is_storable}
use taskpilot_assessment.Metrics.{zero_metrics}
use taskpilot_assessment.Schemas.{TaskCreate}
use taskpilot_assessment.Database.{World}
use taskpilot_assessment.Database.Changes.{touch}
use taskpilot_assessment.Database.Memory.{Table, empty_table, memory}
use taskpilot_assessment.Service.{
  invalid_transition, new_task, create_task, list_tasks, update_status,
}
use taskpilot_assessment.Service.Create.{create_task_raced, create_task_idempotent}
use taskpilot_assessment.Service.Status.{IsAnswered, update_status_lem}
use taskpilot_assessment.Tests.Data.{clock, due, flaky, killed, table, world, kill, service}

-- A request with the key of the task `due`, and one with a new key.
abbrev again : TaskCreate
again = record {
  title = "send receipt twice";
  payload = end;
  scheduled_at = none;
  idempotency_key = some "order-999";
}

abbrev request : TaskCreate
request = record again { title = "charge card"; idempotency_key = some "order-1000" }

created_again : create_task memory clock 9 (λ w. w) again world ≡ (ok due, world)
unfolding service
created_again = refl

-- Meanwhile the task has died.
abbrev later : World Table
later = (update_status memory clock 1 dead world).1

abbrev dead_due : Task
dead_due = touch 1000000000 (record due { status = dead })

found_dead_due : memory.find 1 later.db ≡ some dead_due
unfolding service
found_dead_due = refl

create_task_idempotent_example :
    (memory.find 1 table ≡ some due)
    × (due.idempotency_key ≡ some "order-999")
    × (create_task memory clock 10 kill again later ≡ (ok dead_due, later))
create_task_idempotent_example =
    create_task_idempotent memory clock clock 9 10 (λ w. w) kill again again world world later
      "order-999" due dead_due refl refl created_again found_dead_due refl

abbrev no_world : World Table
no_world = record { db = empty_table; metrics = zero_metrics }

key_free : memory.find_by_key "order-999" empty_table ≡ none
unfolding service
key_free = refl

key_used : memory.find_by_key "order-999" table ≡ some due
unfolding service
key_used = refl

fits : is_storable (new_task 1000000000 9 again) ≡ true
unfolding is_storable
fits = refl

create_task_raced_example : create_task memory clock 9 (λ w. world) again no_world ≡ (ok due, world)
create_task_raced_example =
    create_task_raced memory clock 9 (λ w. world) again no_world "order-999" due fits refl key_free
      key_used

unused_id : memory.find 9 empty_table ≡ none
unfolding service
unused_id = refl

unused_key :
    (k : String)
    → ◌≡◌ {A = Option String} (some "order-999") (some k)
    → memory.find_by_key k empty_table ≡ none
unfolding service
unused_key k e = refl

found_killed : memory.find 4 (kill world).db ≡ some killed
unfolding service
found_killed = refl

update_status_lem_example : IsAnswered memory clock 1 succeeded world
update_status_lem_example = update_status_lem memory clock 1 succeeded world

-- The message of the refusal.
refused :
    update_status memory clock 1 succeeded world
    ≡ (err (invalid_transition pending succeeded), world)
unfolding service
refused = refl

listed : (list_tasks memory (some pending) 1 1 table) ≡ (flaky ∷ [], 2)
unfolding service
listed = refl
