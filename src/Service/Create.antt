-- ===== src/Service/Create.antt =====
-- Creating a task: fresh, repeated, and raced.
use taskpilot_assessment.Prelude.{
  ℕ, ◌<◌, ◌≡◌, refl, true, false, String, Option, none, some, arith, length_text, Option-cases, inl,
  inr, ◌==◌, nat_eq, nat_beq_iff, if◌then◌else◌,
}
use taskpilot_assessment.Errors.{Result-cases, ok, err, integrity_error, dbapi_error}
use taskpilot_assessment.Models.{Task}
use taskpilot_assessment.Models.Columns.{is_storable}
use taskpilot_assessment.Metrics
use taskpilot_assessment.Metrics.{inc}
use taskpilot_assessment.Schemas.{TaskCreate}
use taskpilot_assessment.Database.{Database, Clock, World}
use taskpilot_assessment.Service.{new_task, find_by_idempotency_key, commit_new, create_task}

module _ (D : Database) where
  open D use {
    Db, find, find-id, find_by_key, find_by_key_sound, find_by_key_complete, insert, insert_taken,
    insert_free, insert_stores, insert_unstorable,
  }

  -- The key, if there is one, is not in the table.
  abbrev pub IsFree : Option String → Db → Type 0
  IsFree key d = (k : String) → key ≡ some k → find_by_key k d ≡ none

  absent-of_IsFree :
      (key : Option String) (d : Db) → IsFree key d → find_by_idempotency_key D key d ≡ none
  unfolding find_by_idempotency_key
  absent-of_IsFree none d h = refl
  absent-of_IsFree (some k) d h = h k refl

  -- A request that the columns can hold and whose key is not in use, served with an unused id and no
  -- other transaction in between, stores the new task with its defaults: pending, never tried, due when
  -- the request says or at once. It returns that row and counts it, and no other row changes.
  pub create_task_fresh :
      (now : Clock) (id : ℕ) (body : TaskCreate) (w : World Db)
      → is_storable (new_task now.db id body) ≡ true
      → find id w.db ≡ none
      → IsFree body.idempotency_key w.db
      → 0 < length_text body.title
      → (d' : Db) × (create_task D now id (λ v. v) body w ≡ (
        ok (new_task now.db id body),
        record { db = d'; metrics = inc Metrics.created w.metrics },
      ))
        × ((j : ℕ) → find j d' ≡ (if id == j then some (new_task now.db id body) else find j w.db))
  unfolding create_task
  create_task_fresh now id body w fits fresh free titled =
      let (d', e) = insert_free (new_task now.db id body) w.db fits fresh free titled in
      let rows = insert_stores (new_task now.db id body) w.db d' e in
      let stored : find id d' ≡ some (new_task now.db id body) =
        ground (arith, rows id, nat_beq_iff id id) in
      (d', ground (arith, absent-of_IsFree body.idempotency_key w.db free), rows)

  -- When the columns can hold the request and another transaction has stored a task with its key after
  -- the look-up, the loser returns the winner's row, and writes and counts nothing.
  pub create_task_raced :
      (now : Clock) (id : ℕ) (between : World Db → World Db) (body : TaskCreate) (w : World Db)
      (k : String) (winner : Task)
      → is_storable (new_task now.db id body) ≡ true
      → body.idempotency_key ≡ some k
      → find_by_key k w.db ≡ none
      → find_by_key k (between w).db ≡ some winner
      → create_task D now id between body w ≡ (ok winner, between w)
  unfolding create_task
  create_task_raced now id between body w k winner fits keyed free won =
      let e : insert (new_task now.db id body) (between w).db ≡ err integrity_error =
        insert_taken (new_task now.db id body) winner k (between w).db fits keyed won in
      ground arith

  -- A request that a column cannot hold, its key not in use, stores and counts nothing: the driver's
  -- error is no IntegrityError and goes on to the caller.
  pub create_task_unstorable :
      (now : Clock) (id : ℕ) (between : World Db → World Db) (body : TaskCreate) (w : World Db)
      → is_storable (new_task now.db id body) ≡ false
      → IsFree body.idempotency_key w.db
      → create_task D now id between body w ≡ (err dbapi_error, between w)
  unfolding create_task
  create_task_unstorable now id between body w odd free =
      let e : insert (new_task now.db id body) (between w).db ≡ err dbapi_error =
        insert_unstorable (new_task now.db id body) (between w).db odd in
      ground (arith, absent-of_IsFree body.idempotency_key w.db free)

  -- The row that a commit returns is the one that its key finds.
  commit_new-find_by_key :
      (now : Clock) (id : ℕ) (body : TaskCreate) (w w' : World Db) (k : String) (t : Task)
      → body.idempotency_key ≡ some k
      → commit_new D now id body w ≡ (ok t, w')
      → find_by_key k w'.db ≡ some t
  unfolding commit_new
  commit_new-find_by_key now id body w w' k t keyed e =
      elim (Result-cases (insert (new_task now.db id body) w.db)) [
        | inl (d', stored) ↦
            let there : find id d' ≡ some (new_task now.db id body) = ground (
              arith,
              insert_stores (new_task now.db id body) w.db d' stored id,
              nat_beq_iff id id,
            ) in
            let key : find_by_key k d' ≡ some (new_task now.db id body) =
              find_by_key_complete k d' id (new_task now.db id body) there keyed in
            ground arith
        | inr (x, raised) ↦ ground arith
      ]

  create_task-find_by_key :
      (now : Clock) (id : ℕ) (between : World Db → World Db) (body : TaskCreate) (w w' : World Db)
      (k : String) (t : Task)
      → body.idempotency_key ≡ some k
      → create_task D now id between body w ≡ (ok t, w')
      → find_by_key k w'.db ≡ some t
  unfolding create_task
  create_task-find_by_key now id between body w w' k t keyed e =
      elim (Option-cases (find_by_key k w.db)) [
        | inl absent ↦ commit_new-find_by_key now id body (between w) w' k t keyed (ground arith)
        | inr (u, there) ↦ ground arith
      ]

  -- A request with an idempotency key that is served leaves its task in the table under the key. A
  -- repeated one, at any later time, with any id drawn and whatever its other fields are, meets a table
  -- that may have changed in between: as long as the row of that task is there with its key, the request
  -- returns the row as it then stands, and changes nothing.
  pub create_task_idempotent :
      (now now' : Clock) (id id' : ℕ) (between between' : World Db → World Db)
      (body body' : TaskCreate) (w w' later : World Db) (k : String) (t u : Task)
      → body.idempotency_key ≡ some k
      → body'.idempotency_key ≡ some k
      → create_task D now id between body w ≡ (ok t, w')
      → find t.id later.db ≡ some u
      → u.idempotency_key ≡ some k
      → (find t.id w'.db ≡ some t)
        × (t.idempotency_key ≡ some k)
        × (create_task D now' id' between' body' later ≡ (ok u, later))
  unfolding create_task
  create_task_idempotent now now' id id' between between' body body' w w' later k t u keyed keyed' e
        there kept =
      let found : find_by_key k w'.db ≡ some t =
        create_task-find_by_key now id between body w w' k t keyed e in
      let (stored, key) = find_by_key_sound k w'.db t found in
      let again : find_by_key k later.db ≡ some u =
        find_by_key_complete k later.db t.id u there kept in
      (stored, key, ground arith)
