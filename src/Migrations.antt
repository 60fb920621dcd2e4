-- ===== src/Migrations.antt =====
-- alembic/versions: the two revisions, each as the calls of `op` that its functions make, and the table
-- that app/models.py declares.
pub mod Schema
pub mod Catalogue
pub mod Laws
pub mod Env
use taskpilot_assessment.Prelude.{
  String, Bool, true, false, Option, none, some, List, [], ◌∷◌, ◌++◌, map,
}
use taskpilot_assessment.Models.{pending, running, succeeded, failed, dead, value}
use taskpilot_assessment.Migrations.Schema.{
  ColumnType, Column, uuid, varchar, jsonb, timestamptz, named_enum, integer, text, Index, Table,
  Operation, create_enum, drop_enum, create_table, drop_table, create_index, drop_index, add_column,
  drop_column,
}

abbrev pub now : Option String
now = some "now()"

-- `nullable=False`, with a server default or without one.
abbrev pub required : String → ColumnType → Option String → Column
required name type server_default = record {
  name = name;
  type = type;
  nullable = false;
  server_default = server_default;
}

abbrev pub optional : String → ColumnType → Column
optional name type = record { name = name; type = type; nullable = true; server_default = none }

-- 0001_initial.py
abbrev pub initial_table : Table
initial_table = record {
  name = "tasks";
  columns =
      required "id" uuid none
      ∷ required "title" (varchar 255) none
      ∷ required "payload" jsonb none
      ∷ required "scheduled_at" timestamptz now
      ∷ required "status" (named_enum "task_status") (some "pending")
      ∷ required "retry_count" integer (some "0")
      ∷ optional "last_error" text
      ∷ required "created_at" timestamptz now
      ∷ required "updated_at" timestamptz now
      ∷ [];
  checks =
      ("ck_tasks_retry_count_non_negative", "retry_count >= 0")
      ∷ ("ck_tasks_title_non_empty", "length(title) > 0")
      ∷ [];
  primary_key = "id" ∷ [];
}

abbrev pub ix_tasks_status_scheduled_at : Index
ix_tasks_status_scheduled_at = record {
  name = "ix_tasks_status_scheduled_at";
  table = "tasks";
  columns = "status" ∷ "scheduled_at" ∷ [];
  unique = false;
  condition = none;
}

unfoldable pub upgrade_0001 : List Operation
upgrade_0001 =
    create_enum "task_status" ("pending" ∷ "running" ∷ "succeeded" ∷ "failed" ∷ "dead" ∷ [])
    ∷ create_table initial_table
    ∷ create_index ix_tasks_status_scheduled_at
    ∷ []

unfoldable pub downgrade_0001 : List Operation
downgrade_0001 =
    drop_index "ix_tasks_status_scheduled_at" "tasks"
    ∷ drop_table "tasks"
    ∷ drop_enum "task_status"
    ∷ []

-- 0002_idempotency_key.py
abbrev pub idempotency_key : Column
idempotency_key = optional "idempotency_key" (varchar 255)

abbrev pub uq_tasks_idempotency_key : Index
uq_tasks_idempotency_key = record {
  name = "uq_tasks_idempotency_key";
  table = "tasks";
  columns = "idempotency_key" ∷ [];
  unique = true;
  condition = some "idempotency_key IS NOT NULL";
}

unfoldable pub upgrade_0002 : List Operation
upgrade_0002 = add_column "tasks" idempotency_key ∷ create_index uq_tasks_idempotency_key ∷ []

unfoldable pub downgrade_0002 : List Operation
downgrade_0002 =
    drop_index "uq_tasks_idempotency_key" "tasks" ∷ drop_column "tasks" "idempotency_key" ∷ []

-- `Task.__table__` and the indexes of app/models.py. A `default` is the session's and no part of the
-- schema.
abbrev pub model_table : Table
model_table = record {
  name = "tasks";
  columns =
      required "id" uuid none
      ∷ required "title" (varchar 255) none
      ∷ required "payload" jsonb none
      ∷ optional "idempotency_key" (varchar 255)
      ∷ required "scheduled_at" timestamptz now
      ∷ required "status" (named_enum "task_status") none
      ∷ required "retry_count" integer none
      ∷ optional "last_error" text
      ∷ required "created_at" timestamptz now
      ∷ required "updated_at" timestamptz now
      ∷ [];
  checks =
      ("ck_tasks_retry_count_non_negative", "retry_count >= 0")
      ∷ ("ck_tasks_title_non_empty", "length(title) > 0")
      ∷ [];
  primary_key = "id" ∷ [];
}

abbrev pub model_indexes : List Index
model_indexes =
    record {
      name = "ix_tasks_status_scheduled_at";
      table = "tasks";
      columns = "status" ∷ "scheduled_at" ∷ [];
      unique = false;
      condition = none;
    }
    ∷ record {
      name = "uq_tasks_idempotency_key";
      table = "tasks";
      columns = "idempotency_key" ∷ [];
      unique = true;
      condition = some "idempotency_key IS NOT NULL";
    }
    ∷ []

-- The labels of the enum are the names of the members.
abbrev pub model_statuses : List String
model_statuses = map value (pending ∷ running ∷ succeeded ∷ failed ∷ dead ∷ [])
