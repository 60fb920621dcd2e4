-- ===== src/Routers.antt =====
-- app/routers/tasks.py: the endpoints, from the API key and the parsed
-- parameters to the response. FastAPI resolves the dependency on the key first.
pub mod Laws
pub mod Storage
pub mod Health
use taskpilot_assessment.Prelude.{
  ℕ, String, Bool, true, false, ◌&&◌, Option, none, some, List, [], ◌∷◌, map, leb, if◌then◌else◌,
}
use taskpilot_assessment.Errors.{Exception, ErrorItem, Result, ok, err, request_validation_error}
use taskpilot_assessment.Config.{Settings}
use taskpilot_assessment.Models.{Task, TaskStatus}
use taskpilot_assessment.Http.{Response, content, handle}
use taskpilot_assessment.Auth.{require_api_key}
use taskpilot_assessment.Schemas.{
  TaskCreate, TaskCreateFields, TaskRead, TaskList, task_read, validate_create,
}
use taskpilot_assessment.Database.{Database, Clock, World}
use taskpilot_assessment.Service.{create_task, get_task, list_tasks, update_status, delete_task}

-- The response to what an endpoint returns or raises.
abbrev pub respond : {A : Type 0} → (status_code : ℕ) → Result A → Response A
respond status_code (ok a) = record {
  status_code = status_code;
  body = content a;
  request_id = none;
}
respond status_code (err e) = handle e

abbrev pub reading : Result Task → Result TaskRead
reading (ok t) = ok (task_read t)
reading (err e) = err e

-- `limit` is at least 1 and at most 200; `offset` is not negative by its type.
abbrev pub is_page : (limit : ℕ) → Bool
is_page limit = leb 1 limit && leb limit 200

abbrev pub limit_error : Exception
limit_error =
    request_validation_error
      (record { loc = "query" ∷ "limit" ∷ []; msg = "Input should be from 1 to 200" } ∷ [])

module _ (D : Database) where
  open D use {Db}

  abbrev pub enter :
      {A : Type 0}
      → Result (Unit {0})
      → (World Db → Response A × World Db)
      → World Db
      → Response A × World Db
  enter (err e) endpoint w = (handle e, w)
  enter (ok _) endpoint w = endpoint w

  -- `dependencies=[Depends(require_api_key)]` of the router of the tasks.
  abbrev pub guarded :
      {A : Type 0}
      → Settings
      → Option String
      → (World Db → Response A × World Db)
      → World Db
      → Response A × World Db
  guarded s key endpoint w = enter (require_api_key s key) endpoint w

  abbrev pub create_checked :
      Clock
      → (id : ℕ) → (World Db → World Db)
      → Result TaskCreate
      → World Db
      → Response TaskRead × World Db
  create_checked now id between (err e) w = (handle e, w)
  create_checked now id between (ok body) w =
      let (r, w') = create_task D now id between body w in (respond 201 (reading r), w')

  -- POST /tasks
  unfoldable pub post_task :
      Settings
      → Option String
      → Clock
      → (id : ℕ) → (between : World Db → World Db) → TaskCreateFields
      → World Db
      → Response TaskRead × World Db
  post_task s key now id between raw w =
      guarded s key (create_checked now id between (validate_create s raw)) w

  abbrev pub listing : (limit offset : ℕ) → List Task × ℕ → TaskList
  listing limit offset (items, total) = record {
    items = map task_read items;
    total = total;
    limit = limit;
    offset = offset;
  }

  abbrev pub list_valid :
      Option TaskStatus → (limit offset : ℕ) → World Db → Response TaskList × World Db
  list_valid status limit offset w =
      if is_page limit
      then (respond 200 (ok (listing limit offset (list_tasks D status limit offset w.db))), w)
      else (handle limit_error, w)

  -- GET /tasks
  unfoldable pub get_tasks :
      Settings
      → Option String
      → Option TaskStatus
      → (limit offset : ℕ) → World Db
      → Response TaskList × World Db
  get_tasks s key status limit offset w = guarded s key (list_valid status limit offset) w

  -- GET /tasks/{task_id}
  unfoldable pub get_one :
      Settings → Option String → (task_id : ℕ) → World Db → Response TaskRead × World Db
  get_one s key task_id w =
      guarded s key (λ v. (respond 200 (reading (get_task D task_id v.db)), v)) w

  -- PATCH /tasks/{task_id}/status
  unfoldable pub patch_status :
      Settings
      → Option String
      → Clock
      → (task_id : ℕ) → TaskStatus
      → World Db
      → Response TaskRead × World Db
  patch_status s key now task_id status w =
      guarded s key
        (λ v. let (r, v') = update_status D now task_id status v in (respond 200 (reading r), v')) w

  -- DELETE /tasks/{task_id}
  unfoldable pub delete_one :
      Settings → Option String → (task_id : ℕ) → World Db → Response (Unit {0}) × World Db
  delete_one s key task_id w =
      guarded s key (λ v. let (r, v') = delete_task D task_id v in (respond 204 r, v')) w
