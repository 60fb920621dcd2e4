-- ===== src/Tests/Data.antt =====
-- A small table, the clocks and the surroundings of a tick.
use taskpilot_assessment.Prelude.{decimal, true, false, none, some, [], ◌∷◌, refl}
use taskpilot_assessment.Json.{obj, bool, end, field}
use taskpilot_assessment.Models.{Task, pending, running, dead}
use taskpilot_assessment.Models.Columns.{is_storable}
use taskpilot_assessment.Metrics.{zero_metrics}
use taskpilot_assessment.Database.{Clock, World}
use taskpilot_assessment.Database.Changes.{commit_changes}
use taskpilot_assessment.Database.Memory.{Table, statements}
use taskpilot_assessment.Time.{later, earlier}
use taskpilot_assessment.Worker.Executor.{force_fail}
use taskpilot_assessment.Worker.Failure.{backoff_delay_seconds, apply_failure}
use taskpilot_assessment.Worker.Reclaim.{reclaim_each}
use taskpilot_assessment.Worker.Claim.{due_tasks}
use taskpilot_assessment.Worker.Process.{process_claimed_task}
use taskpilot_assessment.Worker.Tick.{Surroundings, run_once}
use taskpilot_assessment.StateMachine.{can_transition}
use taskpilot_assessment.Service.{create_task, update_status, delete_task, list_tasks}

-- A thousand seconds after the beginning of time, by both clocks.
abbrev pub clock : Clock
clock = record { app = 1000000000; db = 1000000000 }

-- A task that is due and will succeed.
abbrev pub due : Task
due = record {
  id = 1;
  title = "send receipt";
  payload = obj end;
  idempotency_key = some "order-999";
  scheduled_at = 900000000;
  status = pending;
  retry_count = 0;
  last_error = none;
  created_at = 800000000;
  updated_at = 800000000;
}

-- A task that is due and fails.
abbrev pub flaky : Task
flaky = record due {
  id = 2;
  payload = obj (field "force_fail" (bool true) end);
  idempotency_key = none;
  scheduled_at = 950000000;
}

-- A task whose worker was lost, with its retries used up.
abbrev pub stuck : Task
stuck = record flaky { id = 3; status = running; retry_count = 3; updated_at = 100000000 }

-- A task that runs now.
abbrev pub active : Task
active = record flaky { id = 4; status = running; updated_at = 999000000 }

abbrev pub table : Table
table = record {
  rows = due ∷ flaky ∷ stuck ∷ active ∷ [];
  distinct = (refl, (refl, (refl, (refl, tt))));
  keyed = (refl, (refl, (refl, (refl, tt))));
}

abbrev pub world : World Table
world = record { db = table; metrics = zero_metrics }

abbrev pub quiet : Surroundings Table
quiet = record {
  reclaim_clock = clock;
  reclaim_locked = λ j. false;
  claim_clock = clock;
  claim_locked = λ j. false;
  clock = λ j. clock;
  lag = λ j. 0;
  between = λ j w. w;
}

-- Another transaction makes the active task dead.
abbrev pub killed : Task
killed = record active { status = dead; updated_at = 999500000 }

abbrev pub kill : World Table → World Table
kill w = record w {
  db = record {
    rows = due ∷ flaky ∷ stuck ∷ killed ∷ [];
    distinct = (refl, (refl, (refl, (refl, tt))));
    keyed = (refl, (refl, (refl, (refl, tt))));
  };
}

-- Another transaction deletes it.
abbrev pub drop_active : World Table → World Table
drop_active w = record w {
  db = record {
    rows = due ∷ flaky ∷ stuck ∷ [];
    distinct = (refl, (refl, (refl, tt)));
    keyed = (refl, (refl, (refl, tt)));
  };
}

-- A test that runs the worker unfolds this name.
unfoldable pub worker : Unit {0}
unfolding statements commit_changes run_once reclaim_each apply_failure backoff_delay_seconds later
    earlier due_tasks process_claimed_task force_fail decimal
worker = tt

-- A test that runs the service unfolds this name.
unfoldable pub service : Unit {0}
unfolding statements is_storable create_task update_status delete_task list_tasks can_transition
service = tt
