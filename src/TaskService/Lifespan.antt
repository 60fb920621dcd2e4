-- ===== src/TaskService/Lifespan.antt =====
-- task_service_fixed.py: `lifespan`, the one connection of the service and the tables that it makes sure
-- of. The file of SQLite is a parameter with a law for CREATE TABLE IF NOT EXISTS. The pragma and the
-- row factory change nothing that is modelled.
use taskpilot_assessment.Prelude.{
  ◌≡◌, ◌∙◌, ap, refl, String, Bool, true, false, Option, none, some, List, [], ◌∷◌, ◌==◌, string_eq,
  if◌then◌else◌,
}
use taskpilot_assessment.Errors.{Result, ok, err}

-- A column of a CREATE TABLE.
pub record ColumnDefinition : Type 0 where
  pub name : String
  pub type : String
  pub constraint : String

pub record TableDefinition : Type 0 where
  pub name : String
  pub columns : List ColumnDefinition

abbrev column : (name type constraint : String) → ColumnDefinition
column name type constraint = record { name = name; type = type; constraint = constraint }

abbrev pub users_table : TableDefinition
users_table = record {
  name = "users";
  columns = column "id" "INTEGER" "PRIMARY KEY" ∷ column "name" "TEXT" "NOT NULL" ∷ [];
}

abbrev pub tasks_table : TableDefinition
tasks_table = record {
  name = "tasks";
  columns =
      column "id" "TEXT" "PRIMARY KEY"
      ∷ column "title" "TEXT" "NOT NULL"
      ∷ column "payload" "TEXT" "NOT NULL"
      ∷ column "user_id" "INTEGER" "REFERENCES users(id)"
      ∷ column "status" "TEXT" "NOT NULL DEFAULT 'pending'"
      ∷ column "created_at" "TEXT" "NOT NULL"
      ∷ [];
}

-- A table of the file with its rows.
pub record Stored (Rows : Type 0) : Type 0 where
  pub definition : TableDefinition
  pub rows : Rows

abbrev pub or_empty : {Rows : Type 0} → Rows → TableDefinition → Option (Stored Rows) → Stored Rows
or_empty empty t none = record { definition = t; rows = empty }
or_empty empty t (some there) = there

pub record SqliteFile : Type 1 where
  pub File : Type 0
  pub Rows : Type 0
  pub no_rows : Rows
  pub table : String → File → Option (Stored Rows)
  -- CREATE TABLE IF NOT EXISTS
  pub create_if_missing : TableDefinition → File → Result File
  pub create_if_missing_lem :
      (t : TableDefinition) (f : File)
      → (f' : File) × (create_if_missing t f ≡ ok f')
        × ((n : String)
            → table n f'
              ≡ (if t.name == n then some (or_empty no_rows t (table n f)) else table n f))

module _ (Q : SqliteFile) where
  open Q use {File, Rows, no_rows, table, create_if_missing, create_if_missing_lem}

  -- What the context manager leaves: its exception if one came through, the file, and whether the
  -- connection is still open.
  pub record Left : Type 0 where
    pub result : Result (Unit {0})
    pub file : File
    pub is_open : Bool

  -- The `finally` covers only what follows the script.
  abbrev pub closed : Result (Unit {0}) × File → Left
  closed (r, f) = record { result = r; file = f; is_open = false }

  -- `serve` is what the application does at the `yield`.
  unfoldable pub service_lifespan :
      (connected : Result (Unit {0})) → (serve : File → Result (Unit {0}) × File) → File → Left
  service_lifespan (err e) serve f = record { result = err e; file = f; is_open = false }
  service_lifespan (ok _) serve f = elim (create_if_missing users_table f) [
    | err e ↦ record { result = err e; file = f; is_open = true }
    | ok f₁ ↦ elim (create_if_missing tasks_table f₁) [
      | err e ↦ record { result = err e; file = f₁; is_open = true }
      | ok f₂ ↦ closed (serve f₂)
    ]
  ]

  -- Once it is connected, the service runs on a file that has both tables: one that was there is as it was,
  -- rows and all, one that was missing is empty and as declared, and no other table has changed.
  -- However the service ends, the connection is closed.
  service_lifespan_lem :
      (serve : File → Result (Unit {0}) × File) (f : File)
      → (started : File) × (service_lifespan (ok tt) serve f ≡ closed (serve started))
        × (table "users" started ≡ some (or_empty no_rows users_table (table "users" f)))
        × (table "tasks" started ≡ some (or_empty no_rows tasks_table (table "tasks" f)))
        × ((n : String)
            → ("users" == n) ≡ false
            → ("tasks" == n) ≡ false
            → table n started ≡ table n f)
  unfolding service_lifespan
  service_lifespan_lem serve f =
      let (f₁, e₁, users) = create_if_missing_lem users_table f in
      let (f₂, e₂, tasks) = create_if_missing_lem tasks_table f₁ in
      (
        f₂,
        rw (e₁, e₂, service_lifespan) refl,
        tasks "users" ∙ users "users",
        tasks "tasks" ∙ ap (λ o. some (or_empty no_rows tasks_table o)) (users "tasks"),
        λ n u t. tasks n ∙ rw t (users n ∙ rw u refl),
      )
