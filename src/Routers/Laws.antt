-- ===== src/Routers/Laws.antt =====
-- The endpoints: who gets in, and what a request that creates a task leads to.
use taskpilot_assessment.Prelude.{
  ℕ, String, ◌≡◌, refl, false, true, Option, none, some, arith, is_ascii, is_empty, strip, nat_eq,
  inl, inr, ◌≢◌, ◌⊎◌, ◌&&◌, Bool-cases, eq_iff, nat_beq_iff,
}
use taskpilot_assessment.Errors.{Exception, ok, err, type_error}
use taskpilot_assessment.Config.{Settings}
use taskpilot_assessment.Models.{TaskStatus}
use taskpilot_assessment.Models.Columns.{is_storable}
use taskpilot_assessment.Http.{envelope, handle}
use taskpilot_assessment.Auth.{require_api_key, unauthorized}
use taskpilot_assessment.Auth.Laws.{require_api_key_lem}
use taskpilot_assessment.Schemas.{TaskCreateFields, TaskCreate, task_read, validate_create}
use taskpilot_assessment.Schemas.Laws.{validate_create_lem}
use taskpilot_assessment.Service.{new_task, get_task}
use taskpilot_assessment.Service.Create.{IsFree, create_task_fresh}
use taskpilot_assessment.Metrics
use taskpilot_assessment.Metrics.{inc}
use taskpilot_assessment.Database.{Database, Clock, World}
use taskpilot_assessment.Routers.{respond, post_task, get_tasks, get_one, patch_status, delete_one}

is_ascii-is_empty : (k : String) → is_ascii k ≡ false → is_empty k ≡ false
is_ascii-is_empty String.[] h = ground arith
is_ascii-is_empty (String.◌∷◌ c k) h = refl

module _ (D : Database) where
  open D use {Db, find, session_get, session_get-none}

  require_api_key-wrong :
      (s : Settings) (key : Option String)
      → key ≢ some s.api_key
      → (e : Exception) × (require_api_key s key ≡ err e) × ((e ≡ unauthorized) ⊎ (e ≡ type_error))
  unfolding require_api_key
  require_api_key-wrong s none wrong = (unauthorized, refl, inl refl)
  require_api_key-wrong s (some k) wrong = elim (Bool-cases (is_empty k)) [
    | inl h ↦ (unauthorized, rw h refl, inl refl)
    | inr h ↦ elim (Bool-cases (is_ascii k && is_ascii s.api_key)) [
      | inl a ↦ (unauthorized, ground (arith, eq_iff k s.api_key), inl refl)
      | inr b ↦ (type_error, ground arith, inr refl)
    ]
  ]

  -- Without the key of the settings, each of the five endpoints of the tasks answers that the request is
  -- unauthorized, or with an internal error where the key's comparison raises, and leaves the table and
  -- the counters alone, whatever the rest of the request is.
  endpoints_closed :
      (s : Settings) (key : Option String) (w : World Db)
      → key ≢ some s.api_key
      → (e : Exception) × ((e ≡ unauthorized) ⊎ (e ≡ type_error))
        × ((now : Clock) (id : ℕ) (between : World Db → World Db) (raw : TaskCreateFields)
            → post_task D s key now id between raw w ≡ (handle e, w))
        × ((status : Option TaskStatus) (limit offset : ℕ)
            → get_tasks D s key status limit offset w ≡ (handle e, w))
        × ((id : ℕ) → get_one D s key id w ≡ (handle e, w))
        × ((now : Clock) (id : ℕ) (status : TaskStatus)
            → patch_status D s key now id status w ≡ (handle e, w))
        × ((id : ℕ) → delete_one D s key id w ≡ (handle e, w))
  unfolding post_task get_tasks get_one patch_status delete_one
  endpoints_closed s key w wrong =
      let (e, h, which) = require_api_key-wrong s key wrong in
      (
        e,
        which,
        λ now id between raw. rw (h, post_task) refl,
        λ status limit offset. rw (h, get_tasks) refl,
        λ id. rw (h, get_one) refl,
        λ now id status. rw (h, patch_status) refl,
        λ id. rw (h, delete_one) refl,
      )

  -- A key with a code point that is not ASCII is no 401 but an internal error, 500, for TypeError goes
  -- through the check; the table and the counters stay as they are.
  post_task_not_ascii :
      (s : Settings) (k : String) (now : Clock) (id : ℕ) (between : World Db → World Db)
      (raw : TaskCreateFields) (w : World Db)
      → is_ascii k ≡ false
      → post_task D s (some k) now id between raw w
        ≡ (envelope 500 "internal_error" "An internal error occurred.", w)
  unfolding post_task require_api_key handle
  post_task_not_ascii s k now id between raw w odd =
      let there = is_ascii-is_empty k odd in
      let h : require_api_key s (some k) ≡ err type_error = ground arith in rw (h, post_task) refl

  -- A request with the right key and a body that the validators accept and the columns can hold, with
  -- a fresh id, a key that is not in use and no other transaction in between, is answered with 201 and
  -- the new task, its title stripped; a request for that id is then answered with 200 and the same
  -- task.
  pub post_task-get_one :
      (s : Settings) (now : Clock) (id : ℕ) (raw : TaskCreateFields) (body : TaskCreate)
      (w : World Db)
      → is_ascii s.api_key ≡ true
      → is_empty s.api_key ≡ false
      → validate_create s raw ≡ ok body
      → is_storable (new_task now.db id body) ≡ true
      → find id w.db ≡ none
      → IsFree D body.idempotency_key w.db
      → (w' : World Db) × (post_task D s (some s.api_key) now id (λ v. v) raw w
          ≡ (respond 201 (ok (task_read (new_task now.db id body))), w'))
        × (get_one D s (some s.api_key) id w'
            ≡ (respond 200 (ok (task_read (new_task now.db id body))), w'))
        × (body.title ≡ strip raw.title)
        × (w'.metrics ≡ inc Metrics.created w.metrics)
  unfolding post_task get_one get_task
  post_task-get_one s now id raw body w ascii there valid fits fresh free =
      let sound = validate_create_lem s raw body valid in
      let open' : require_api_key s (some s.api_key) ≡ ok tt =
        (require_api_key_lem s (some s.api_key)).1 (refl, ascii, there) in
      let (d', e, rows) = create_task_fresh D now id body w fits fresh free sound.title_bounds.0 in
      let stored : session_get none id d' ≡ some (new_task now.db id body) =
        ground (arith, rows id, nat_beq_iff id id, session_get-none id d') in
      (
        record { db = d'; metrics = inc Metrics.created w.metrics },
        rw (open', valid, e, post_task) refl,
        rw (open', get_one) (rw (stored, get_task) refl),
        sound.title_stripped,
        refl,
      )
