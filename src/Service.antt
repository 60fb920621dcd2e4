-- ===== src/Service.antt =====
-- app/service.py: the operations behind the API, each in a session of its own.
pub mod Create
pub mod Status
pub mod Queries
pub mod Pages
use taskpilot_assessment.Prelude.{
  ℕ, String, Bool, true, not, Option, none, some, List, append_text, ◌==◌, if◌then◌else◌,
}
use taskpilot_assessment.Errors.{
  Exception, api_error, integrity_error, invalid_request_error, Result, ok, err,
}
use taskpilot_assessment.Json.{obj}
use taskpilot_assessment.Models.{Task, TaskStatus, pending, value, status_eq}
use taskpilot_assessment.Metrics
use taskpilot_assessment.Metrics.{inc}
use taskpilot_assessment.StateMachine.{can_transition}
use taskpilot_assessment.Schemas.{TaskCreate}
use taskpilot_assessment.Database.{Database, Clock, World}

abbrev pub not_found : Exception
not_found = api_error 404 "not_found" "Task not found."

-- The f-string of the 409.
abbrev pub invalid_transition : TaskStatus → TaskStatus → Exception
invalid_transition current target = api_error 409 "invalid_transition" (
    append_text "Cannot transition task from '"
      (append_text (value current) (append_text "' to '" (append_text (value target) "'."))))

-- The row of a new task: the columns that the request does not set have their defaults.
abbrev pub new_task : (now id : ℕ) → TaskCreate → Task
new_task now id body = record {
  id = id;
  title = body.title;
  payload = obj body.payload;
  idempotency_key = body.idempotency_key;
  scheduled_at = elim body.scheduled_at [ none ↦ now | some at ↦ at ];
  status = pending;
  retry_count = 0;
  last_error = none;
  created_at = now;
  updated_at = now;
}

-- The WHERE clause of the listing.
abbrev pub has_status : Option TaskStatus → Task → Bool
has_status none t = true
has_status (some s) t = t.status == s

module _ (D : Database) where
  open D use {Db, find, find_by_key, session_get, flush, insert, delete, count, page}

  -- `_find_by_idempotency_key`, where there is a key.
  unfoldable pub find_by_idempotency_key : Option String → Db → Option Task
  find_by_idempotency_key none d = none
  find_by_idempotency_key (some key) d = find_by_key key d

  -- `session.refresh(task)`
  unfoldable pub refresh : ℕ → World Db → Result Task × World Db
  refresh id w = elim (find id w.db) [ none ↦ (err invalid_request_error, w) | some t ↦ (ok t, w) ]

  -- `session.commit()` of the new row, and the handler of `IntegrityError`.
  unfoldable pub commit_new : Clock → (id : ℕ) → TaskCreate → World Db → Result Task × World Db
  unfolding find_by_idempotency_key refresh
  commit_new now id body w = elim (insert (new_task now.db id body) w.db) [
    | ok d ↦ refresh id (record { db = d; metrics = inc Metrics.created w.metrics })
    | err integrity_error ↦ elim (find_by_idempotency_key body.idempotency_key w.db) [
      | some existing ↦ (ok existing, w)
      | none ↦ (err integrity_error, w)
    ]
    | err e ↦ (err e, w)
  ]

  -- `id` is the UUID that is drawn for the new row, and `between` is what other transactions commit
  -- after the key was looked up.
  unfoldable pub create_task :
      Clock
      → (id : ℕ) → (between : World Db → World Db) → TaskCreate
      → World Db
      → Result Task × World Db
  unfolding commit_new find_by_idempotency_key
  create_task now id between body w = elim (find_by_idempotency_key body.idempotency_key w.db) [
    | some existing ↦ (ok existing, w)
    | none ↦ commit_new now id body (between w)
  ]

  unfoldable pub get_task : ℕ → Db → Result Task
  get_task task_id d = elim (session_get none task_id d) [
    | none ↦ err not_found
    | some task ↦ ok task
  ]

  unfoldable pub list_tasks : Option TaskStatus → (limit offset : ℕ) → Db → List Task × ℕ
  list_tasks status limit offset d =
      (page (has_status status) limit offset d, count (has_status status) d)

  unfoldable pub delete_task : ℕ → World Db → Result (Unit {0}) × World Db
  unfolding get_task
  delete_task task_id w = elim (get_task task_id w.db) [
    | err e ↦ (err e, w)
    | ok task ↦ (ok tt, record w { db = delete task.id w.db })
  ]

  -- The row is locked until the commit, so the table is the same for the read and the write.
  unfoldable pub change_status : Clock → Task → TaskStatus → World Db → Result Task × World Db
  unfolding refresh
  change_status now task target w =
      if task.status == target
      then (ok task, w)
      else if not (can_transition task.status target)
      then (err (invalid_transition task.status target), w)
      else elim (flush now.db task (record task { status = target }) w.db) [
        | err e ↦ (err e, w)
        | ok d ↦ refresh task.id (record w { db = d })
      ]

  unfoldable pub update_status : Clock → ℕ → TaskStatus → World Db → Result Task × World Db
  unfolding change_status
  update_status now task_id target w = elim (find task_id w.db) [
    | none ↦ (err not_found, w)
    | some task ↦ change_status now task target w
  ]
