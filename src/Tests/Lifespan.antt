-- ===== src/Tests/Lifespan.antt =====
-- The service of the review, started on a file that has its tasks and no users.
use taskpilot_assessment.Prelude.{
  ℕ, ◌≡◌, refl, String, false, Option, none, some, List, [], ◌∷◌, ◌==◌, string_eq, if◌then◌else◌,
}
use taskpilot_assessment.Errors.{ok, err, stale_data_error}
use taskpilot_assessment.TaskService.Lifespan.{
  TableDefinition, Stored, SqliteFile, or_empty, users_table, tasks_table, service_lifespan,
}

abbrev File : Type 0
File = String → Option (Stored (List ℕ))

abbrev create : TableDefinition → File → File
create t f n = if t.name == n then some (or_empty [] t (f n)) else f n

abbrev files : SqliteFile
files = record {
  File = File;
  Rows = List ℕ;
  no_rows = [];
  table = λ n f. f n;
  create_if_missing = λ t f. ok (create t f);
  create_if_missing_lem = λ t f. (create t f, refl, λ n. refl);
}

abbrev before : File
before n = if "tasks" == n then some (record { definition = tasks_table; rows = 7 ∷ [] }) else none

-- The service raises, and the tasks are still there.
stopped : service_lifespan files (ok tt) (λ f. (err stale_data_error, f)) before ≡ record {
  result = err stale_data_error;
  file = create tasks_table (create users_table before);
  is_open = false;
}
unfolding service_lifespan
stopped = refl

kept_tasks :
    create tasks_table (create users_table before) "tasks"
    ≡ some (record { definition = tasks_table; rows = 7 ∷ [] })
kept_tasks = refl
