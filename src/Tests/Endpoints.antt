-- ===== src/Tests/Endpoints.antt =====
-- The endpoints and the polling loop on the small table.
use taskpilot_assessment.Prelude.{
  ◌≡◌, refl, true, false, none, some, List, [], ◌∷◌, arith, strip, decimal,
}
use taskpilot_assessment.Errors.{ok}
use taskpilot_assessment.Config.{default_settings}
use taskpilot_assessment.Json.{Fields, float, end, field, dumps_size}
use taskpilot_assessment.Metrics
use taskpilot_assessment.Metrics.{inc, zero_metrics}
use taskpilot_assessment.Schemas.{TaskCreate, TaskCreateFields, task_read, validate_create}
use taskpilot_assessment.Service.{new_task}
use taskpilot_assessment.Database.{World}
use taskpilot_assessment.Database.Memory.{Table, memory}
use taskpilot_assessment.Routers.{respond, post_task, get_one}
use taskpilot_assessment.Models.Columns.{is_jsonb, is_storable}
use taskpilot_assessment.Http.{envelope}
use taskpilot_assessment.Routers.Laws.{post_task-get_one}
use taskpilot_assessment.Routers.Storage.{is_clean, post_task_unstorable}
use taskpilot_assessment.Worker.Runner.{Round, run_loop}
use taskpilot_assessment.Tests.Data.{clock, table, world, quiet, service}

abbrev raw : TaskCreateFields
raw = record {
  title = " charge card ";
  payload = end;
  scheduled_at = none;
  idempotency_key = some "order-1000";
}

abbrev body : TaskCreate
body = record {
  title = "charge card";
  payload = end;
  scheduled_at = none;
  idempotency_key = some "order-1000";
}

raw_valid : validate_create default_settings raw ≡ ok body
unfolding validate_create dumps_size decimal strip
raw_valid = refl

key_free : memory.find_by_key "order-1000" table ≡ none
unfolding service
key_free = refl

fits : is_storable (new_task 1000000000 9 body) ≡ true
unfolding is_storable
fits = refl

absent : memory.find 9 table ≡ none
unfolding service
absent = refl

post_task-get_one_example :
    (w' : World Table) × (post_task memory default_settings
        (some "change-me-in-production")
        clock
        9
        (λ v. v)
        raw
        world
      ≡ (respond 201 (ok (task_read (new_task 1000000000 9 body))), w'))
    × (get_one memory default_settings (some "change-me-in-production") 9 w'
        ≡ (respond 200 (ok (task_read (new_task 1000000000 9 body))), w'))
    × (body.title ≡ strip raw.title)
    × (w'.metrics ≡ inc Metrics.created zero_metrics)
post_task-get_one_example =
    post_task-get_one memory default_settings clock 9 raw body world refl refl raw_valid fits absent
      (λ k h. ground (arith, key_free))

-- A payload with a NaN, which `json.loads` accepts.
abbrev odd_payload : Fields
odd_payload = field "amount" (float "NaN") end

abbrev odd : TaskCreateFields
odd = record raw { payload = odd_payload }

abbrev odd_body : TaskCreate
odd_body = record body { payload = odd_payload }

odd_valid : validate_create default_settings odd ≡ ok odd_body
unfolding validate_create dumps_size decimal strip
odd_valid = refl

not_clean : is_clean odd_body ≡ false
unfolding is_jsonb
not_clean = refl

post_task_unstorable_example :
    post_task memory default_settings (some "change-me-in-production") clock 9 (λ v. v) odd world
    ≡ (envelope 500 "internal_error" "An internal error occurred.", world)
post_task_unstorable_example =
    post_task_unstorable memory default_settings clock 9 (λ v. v) odd odd_body world refl refl
      odd_valid (omega arith) (λ k h. ground (arith, key_free)) not_clean

abbrev pub shift : List (Round Table)
shift =
    record { surroundings = quiet; elapsed = 2000000; meanwhile = λ w. w; stops = false }
    ∷ record { surroundings = quiet; elapsed = 90000000; meanwhile = λ w. w; stops = true }
    ∷ record { surroundings = quiet; elapsed = 1000000; meanwhile = λ w. w; stops = false }
    ∷ []

shift_waits : (run_loop memory default_settings false shift world).waits ≡ 0 ∷ 58000000 ∷ []
unfolding run_loop
shift_waits = refl
