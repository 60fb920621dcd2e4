-- ===== src/TaskService.antt =====
-- task_service_fixed.py: the corrected service of the review, one file over SQLite. A UUID is its
-- number, `created_at` is the time that its text denotes (`isoformat` in UTC is ordered as the times
-- are), and the column `payload` is the value that its JSON text denotes. A user id
-- that is negative is left out.
pub mod Tables
pub mod Memory
pub mod Laws
pub mod Lifespan
use taskpilot_assessment.Prelude.{
  ℕ, ◌*◌, String, Bool, not, Option, none, some, List, [], ◌∷◌, map, ltb, ◌==◌, nat_eq,
  if◌then◌else◌, length_text, strip, is_empty, append_text, decimal,
}
use taskpilot_assessment.Errors.{
  Exception, ErrorItem, Result, ok, err, api_error, request_validation_error, ◌>>=◌,
}
use taskpilot_assessment.Json.{Fields, obj, dumps_size_spaced}
use taskpilot_assessment.Auth.{compare_digest}
use taskpilot_assessment.Validation.{Checked, valid, rejected, raised, check, both, invalid}
use taskpilot_assessment.TaskService.Tables.{Row, Sqlite}

abbrev pub max_payload_bytes : ℕ
max_payload_bytes = 64 * 1024

-- `require_api_key`, for the key of the environment.
abbrev pub unauthorized : Exception
unauthorized = api_error 401 "unauthorized" "Missing or invalid API key."

abbrev pub admit : Bool → Result (Unit {0})
admit b = if b then ok tt else err unauthorized

unfoldable pub require_api_key : (api_key : String) → Option String → Result (Unit {0})
unfolding compare_digest
require_api_key api_key none = err unauthorized
require_api_key api_key (some provided) =
    if is_empty provided then err unauthorized else compare_digest provided api_key >>= admit

-- The typed fields of a request, and what is left of them.
pub record TaskCreate : Type 0 where
  pub title : String
  pub payload : Fields
  pub user_id : Option ℕ

-- `Field(min_length=1, max_length=255)`, then `_strip`.
unfoldable pub strip_title : String → Result String
strip_title title =
    if ltb (length_text title) 1
    then invalid "String should have at least 1 character"
    else if ltb 255 (length_text title)
    then invalid "String should have at most 255 characters"
    else if is_empty (strip title)
    then invalid "title must not be blank"
    else ok (strip title)

-- `_bounded`
unfoldable pub bounded : Fields → Result Fields
unfolding dumps_size_spaced
bounded payload =
    if ltb max_payload_bytes (dumps_size_spaced (obj payload))
    then invalid "payload too large"
    else ok payload

abbrev resolve : Option ℕ → Checked (String × Fields) → Result TaskCreate
resolve user_id (valid (title, payload)) =
    ok (record { title = title; payload = payload; user_id = user_id })
resolve user_id (rejected es) = err (request_validation_error es)
resolve user_id (raised e) = err e

unfoldable pub validate : TaskCreate → Result TaskCreate
unfolding strip_title bounded
validate raw =
    resolve raw.user_id
      (both (check "title" (strip_title raw.title)) (check "payload" (bounded raw.payload)))

pub record User : Type 0 where
  pub id : ℕ
  pub name : Option String

pub record TaskRead : Type 0 where
  pub id : ℕ
  pub title : String
  pub payload : Fields
  pub status : String
  pub created_at : ℕ
  pub user : Option User

abbrev pub new_row : (id now : ℕ) → TaskCreate → Row
new_row id now body = record {
  id = id;
  title = body.title;
  payload = body.payload;
  user_id = body.user_id;
  status = "pending";
  created_at = now;
}

-- The reply to a creation, which is not read back.
abbrev pub created : (id now : ℕ) → TaskCreate → TaskRead
created id now body = record {
  id = id;
  title = body.title;
  payload = body.payload;
  status = "pending";
  created_at = now;
  user = none;
}

-- A row of the query's result: the columns of the task, and those of the user that it is joined with.
pub record Joined : Type 0 where
  pub task : Row
  pub user_id : Option ℕ
  pub user_name : Option String

-- `if r["user_id"]`: neither NULL nor 0.
abbrev pub joined_user : Option ℕ → Option String → Option User
joined_user none name = none
joined_user (some id) name = if id == 0 then none else some (record { id = id; name = name })

abbrev pub read_joined : Joined → TaskRead
read_joined r = record {
  id = r.task.id;
  title = r.task.title;
  payload = r.task.payload;
  status = r.task.status;
  created_at = r.task.created_at;
  user = joined_user r.user_id r.user_name;
}

-- LEFT JOIN users u ON u.id = t.user_id, for a user that is there or is not.
abbrev pub join_found : Row → ℕ → Option String → Joined
join_found t id none = record { task = t; user_id = none; user_name = none }
join_found t id (some name) = record { task = t; user_id = some id; user_name = some name }

-- The replies: the body of FastAPI's own handler for a validation error is not an envelope.
pub data Reply (A : Type 0) : Type 0 where
  content : (status_code : ℕ) → A → Reply A
  envelope : (status_code : ℕ) → (code message : String) → Reply A
  detail : (status_code : ℕ) → List ErrorItem → Reply A

-- `_handle_api_error`, `_handle_unexpected`, and FastAPI's handler.
unfoldable pub handle : {A : Type 0} → Exception → Reply A
handle (api_error status_code code message) = envelope status_code code message
handle (request_validation_error es) = detail 422 es
handle _ = envelope 500 "internal_error" "An internal error occurred."

module _ (Q : Sqlite) where
  open Q use {Db, find_user, insert, select_tasks}

  abbrev pub join_user : Db → Row → Joined
  join_user d t = elim t.user_id [
    | none ↦ record { task = t; user_id = none; user_name = none }
    | some id ↦ join_found t id (find_user id d)
  ]

  -- The INSERT and the commit.
  unfoldable pub create_task : (id now : ℕ) → TaskCreate → Db → Result TaskRead × Db
  create_task id now body d = elim (insert (new_row id now body) d) [
    | ok d' ↦ (ok (created id now body), d')
    | err e ↦ (err e, d)
  ]

  unfoldable pub get_tasks : Db → List TaskRead
  get_tasks d = map read_joined (map (join_user d) (select_tasks d))

  abbrev pub reply_created : Result TaskRead × Db → Reply TaskRead × Db
  reply_created (ok t, d) = (content 201 t, d)
  reply_created (err e, d) = (handle e, d)

  abbrev pub post_checked : (id now : ℕ) → Result TaskCreate → Db → Reply TaskRead × Db
  post_checked id now (ok body) d = reply_created (create_task id now body d)
  post_checked id now (err e) d = (handle e, d)

  abbrev pub post_admitted :
      (id now : ℕ) → Result (Unit {0}) → TaskCreate → Db → Reply TaskRead × Db
  post_admitted id now (ok _) raw d = post_checked id now (validate raw) d
  post_admitted id now (err e) raw d = (handle e, d)

  -- POST /tasks
  unfoldable pub post_tasks :
      (api_key : String) → Option String → (id now : ℕ) → TaskCreate → Db → Reply TaskRead × Db
  post_tasks api_key key id now raw d = post_admitted id now (require_api_key api_key key) raw d

  abbrev pub list_admitted : Result (Unit {0}) → Db → Reply (List TaskRead)
  list_admitted (ok _) d = content 200 (get_tasks d)
  list_admitted (err e) d = handle e

  -- GET /tasks
  unfoldable pub list_tasks : (api_key : String) → Option String → Db → Reply (List TaskRead)
  list_tasks api_key key d = list_admitted (require_api_key api_key key) d
