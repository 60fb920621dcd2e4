-- ===== src/Database.antt =====
-- The database that the code talks to through SQLAlchemy: the `tasks` table of app/models.py behind
-- the statements that app/service.py and app/worker/processing.py issue. PostgreSQL and SQLAlchemy
-- are not part of the repository, so they are a parameter: the operations with their documented
-- behaviour as laws. `Database.Memory` has one that meets them all.
pub mod Rows
pub mod Changes
pub mod Counting
pub mod Memory
use taskpilot_assessment.Prelude.{
  ℕ, ◌≤◌, ◌+◌, String, ◌≡◌, ◌≢◌, Bool, true, false, ◌||◌, Option, none, some, List, [], ◌∷◌, ◌⊎◌,
  All, length, take, drop, length_text, ◌<◌, ◌==◌, nat_eq, if◌then◌else◌,
}
use taskpilot_assessment.Errors.{Result, ok, err, stale_data_error, integrity_error, dbapi_error}
use taskpilot_assessment.Models.{Task, status_eq, option_eq}
use taskpilot_assessment.Models.Columns.{is_storable}
use taskpilot_assessment.Metrics.{Metrics}

-- A row with the given primary key is among the rows.
abbrev pub has_id : ℕ → List Task → Bool
has_id i [] = false
has_id i (t ∷ ts) = t.id == i || has_id i ts

-- No primary key stands twice.
abbrev pub Distinct : List Task → Type 0
Distinct [] = Unit
Distinct (t ∷ ts) = (has_id t.id ts ≡ false) × Distinct ts

-- Newest first.
abbrev pub NewestFirst : List Task → Type 0
NewestFirst [] = Unit
NewestFirst (t ∷ ts) = All (λ u. u.created_at ≤ t.created_at) ts × NewestFirst ts

-- The columns that no update assigns.
abbrev pub SameIdentity : Task → Task → Type 0
SameIdentity t u =
    (t.id ≡ u.id)
    × (t.title ≡ u.title)
    × (t.payload ≡ u.payload)
    × (t.idempotency_key ≡ u.idempotency_key)
    × (t.created_at ≡ u.created_at)

-- The row that an UPDATE leaves: a session writes the columns in which the object differs from what
-- was loaded, and `onupdate=func.now()` sets `updated_at`.
abbrev pub merge : ℕ → Task → Task → Task → Task
merge now loaded current row = record row {
  status = if loaded.status == current.status then row.status else current.status;
  retry_count =
      if loaded.retry_count == current.retry_count then row.retry_count else current.retry_count;
  scheduled_at =
      if loaded.scheduled_at == current.scheduled_at
      then row.scheduled_at
      else current.scheduled_at;
  last_error =
      if loaded.last_error == current.last_error then row.last_error else current.last_error;
  updated_at = now;
}

-- The two clocks: `_now()` in the process and `now()` in the database.
pub record Clock : Type 0 where
  pub app : ℕ
  pub db : ℕ

pub record Database : Type 1 where
  pub Db : Type 0
  -- SELECT by primary key, as the table is committed.
  pub find : ℕ → Db → Option Task
  pub find-id : (i : ℕ) (d : Db) (t : Task) → find i d ≡ some t → t.id ≡ i
  -- `session.get(Task, id)`: an object that the session holds and has not expired is returned with
  -- no statement; else the row is read.
  pub session_get : Option Task → ℕ → Db → Option Task
  pub session_get-none : (i : ℕ) (d : Db) → session_get none i d ≡ find i d
  pub session_get-some : (t : Task) (i : ℕ) (d : Db) → session_get (some t) i d ≡ some t
  -- SELECT … WHERE p ORDER BY key LIMIT n FOR UPDATE SKIP LOCKED, where `locked` holds of the rows
  -- that other transactions have locked. A constant key is no ORDER BY.
  pub select_for_update : (Task → Bool) → (Task → ℕ) → ℕ → (ℕ → Bool) → Db → List Task
  pub select_sound :
      (p : Task → Bool) (key : Task → ℕ) (n : ℕ) (locked : ℕ → Bool) (d : Db)
      → All
          (λ t. (find t.id d ≡ some t) × (p t ≡ true) × (locked t.id ≡ false))
          (select_for_update p key n locked d)
  pub select_distinct :
      (p : Task → Bool) (key : Task → ℕ) (n : ℕ) (locked : ℕ → Bool) (d : Db)
      → Distinct (select_for_update p key n locked d)
  pub select_limit :
      (p : Task → Bool) (key : Task → ℕ) (n : ℕ) (locked : ℕ → Bool) (d : Db)
      → length (select_for_update p key n locked d) ≤ n
  pub select_complete :
      (p : Task → Bool) (key : Task → ℕ) (n : ℕ) (locked : ℕ → Bool) (d : Db) (t : Task)
      → find t.id d ≡ some t
      → p t ≡ true
      → locked t.id ≡ false
      → has_id t.id (select_for_update p key n locked d) ≡ false
      → (length (select_for_update p key n locked d) ≡ n)
        × All (λ u. key u ≤ key t) (select_for_update p key n locked d)
  -- The UPDATE that a commit issues for one object that has changed, with the database's clock, the
  -- object as loaded and as it stands.
  pub flush : ℕ → Task → Task → Db → Result Db
  pub flush_missing :
      (now : ℕ) (l c : Task) (d : Db)
      → l.status ≢ c.status
      → find l.id d ≡ none
      → flush now l c d ≡ err stale_data_error
  pub flush_found :
      (now : ℕ) (l c row : Task) (d : Db)
      → l.status ≢ c.status
      → SameIdentity l c
      → find l.id d ≡ some row
      → (d' : Db) × (flush now l c d ≡ ok d')
        × ((j : ℕ) → find j d' ≡ (if l.id == j then some (merge now l c row) else find j d))
  -- SELECT … WHERE idempotency_key = k, a column with a unique index. For a key with the code point 0 the
  -- statement raises what the INSERT after it raises here.
  pub find_by_key : String → Db → Option Task
  pub find_by_key_sound :
      (k : String) (d : Db) (t : Task)
      → find_by_key k d ≡ some t
      → (find t.id d ≡ some t) × (t.idempotency_key ≡ some k)
  pub find_by_key_complete :
      (k : String) (d : Db) (i : ℕ) (t : Task)
      → find i d ≡ some t
      → t.idempotency_key ≡ some k
      → find_by_key k d ≡ some t
  -- INSERT. The values are read before the constraints are checked; `IntegrityError` is for the latter.
  pub insert : Task → Db → Result Db
  pub insert_unstorable : (t : Task) (d : Db) → is_storable t ≡ false → insert t d ≡ err dbapi_error
  pub insert_taken :
      (t u : Task) (k : String) (d : Db)
      → is_storable t ≡ true
      → t.idempotency_key ≡ some k
      → find_by_key k d ≡ some u
      → insert t d ≡ err integrity_error
  pub insert_free :
      (t : Task) (d : Db)
      → is_storable t ≡ true
      → find t.id d ≡ none
      → ((k : String) → t.idempotency_key ≡ some k → find_by_key k d ≡ none)
      → 0 < length_text t.title
      → (d' : Db) × (insert t d ≡ ok d')
  pub insert_stores :
      (t : Task) (d d' : Db)
      → insert t d ≡ ok d'
      → (j : ℕ) → find j d' ≡ (if t.id == j then some t else find j d)
  -- SELECT count(*) … WHERE p, and SELECT … WHERE p ORDER BY created_at DESC LIMIT n OFFSET k. Rows
  -- created at the same time come in any order, which may differ from query to query.
  pub count : (Task → Bool) → Db → ℕ
  pub count_lem :
      (p : Task → Bool) (d : Db) (ts : List Task)
      → Distinct ts
      → All (λ t. (find t.id d ≡ some t) × (p t ≡ true)) ts
      → ((t : Task) → find t.id d ≡ some t → p t ≡ true → has_id t.id ts ≡ true)
      → count p d ≡ length ts
  pub page : (Task → Bool) → (limit offset : ℕ) → Db → List Task
  pub page_lem :
      (p : Task → Bool) (limit offset : ℕ) (d : Db)
      → (ts : List Task) × (page p limit offset d ≡ take limit (drop offset ts))
        × NewestFirst ts
        × Distinct ts
        × All (λ t. (find t.id d ≡ some t) × (p t ≡ true)) ts
        × ((t : Task) → find t.id d ≡ some t → p t ≡ true → has_id t.id ts ≡ true)
  -- DELETE by primary key.
  pub delete : ℕ → Db → Db
  pub delete_lem : (i j : ℕ) (d : Db) → find j (delete i d) ≡ (if i == j then none else find j d)

-- The state that the code's functions pass on: the table as it is committed, and the counters.
pub record World (S : Type 0) : Type 0 where
  pub db : S
  pub metrics : Metrics
