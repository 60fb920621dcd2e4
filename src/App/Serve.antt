-- ===== src/App/Serve.antt =====
-- app/main.py: one request through the whole application with CORS off, from app/middleware.py over the
-- routers to app/service.py. Of the handlers of app/errors.py, Starlette calls that for `Exception`
-- outside of every middleware, and the others inside.
pub mod Responses
pub mod Endpoints
pub mod Laws
use taskpilot_assessment.Prelude.{
  ℕ, String, Bool, true, false, Option, some, List, map, if◌then◌else◌,
}
use taskpilot_assessment.Errors.{
  Exception, ErrorItem, api_error, request_validation_error, http_exception, Result, ok, err,
}
use taskpilot_assessment.Config.{Settings}
use taskpilot_assessment.Models.{Task, TaskStatus}
use taskpilot_assessment.Http.{Request, Response, Body, content, error, handle}
use taskpilot_assessment.Auth.{require_api_key}
use taskpilot_assessment.Schemas.{TaskCreate, TaskCreateFields, TaskRead, TaskList, validate_create}
use taskpilot_assessment.Middleware.{Server, Outcome, dispatch}
use taskpilot_assessment.Database.{Database, Clock, World}
use taskpilot_assessment.Service.{create_task, get_task, list_tasks, update_status, delete_task}
use taskpilot_assessment.Routers.Health.{Texts, root, metrics, liveness, readiness}
use taskpilot_assessment.Routers.{respond, reading, is_page, limit_error, listing}

-- A call of one of the five endpoints of the tasks, with its parsed parameters; `invalid` is one whose
-- parameters or typed body FastAPI itself refuses, with its list of errors, once the key is accepted.
pub data Call (S : Type 0) : Type 0 where
  create : (now : Clock) → (id : ℕ) → (between : World S → World S) → TaskCreateFields → Call S
  list : Option TaskStatus → (limit offset : ℕ) → Call S
  read : (task_id : ℕ) → Call S
  update : (now : Clock) → (task_id : ℕ) → TaskStatus → Call S
  remove : (task_id : ℕ) → Call S
  invalid : (template : String) → List ErrorItem → Call S

-- What a request is for: the router of the tasks, which wants the key, or one of the probes, which do
-- not. `malformed` is a body that FastAPI refuses as not being JSON, which comes before the key.
-- Unknown paths are left out.
pub data Target (S : Type 0) : Type 0 where
  keyed : Call S → Target S
  malformed : (template : String) → List ErrorItem → Target S
  get_root : Target S
  get_metrics : (exposition content_type : String) → Target S
  get_liveness : Target S
  get_readiness : Result (Unit {0}) → Target S

-- The bodies of their responses.
pub data Payload : Type 0 where
  task : TaskRead → Payload
  tasks : TaskList → Payload
  nothing : Payload
  texts : Texts → Payload
  exposition : (String × String) → Payload

-- `route.path`
abbrev pub template : {S : Type 0} → Call S → String
template (create _ _ _ _) = "/tasks"
template (list _ _ _) = "/tasks"
template (read _) = "/tasks/{task_id}"
template (update _ _ _) = "/tasks/{task_id}/status"
template (remove _) = "/tasks/{task_id}"
template (invalid path _) = path

abbrev pub target_template : {S : Type 0} → Target S → String
target_template (keyed call) = template call
target_template (malformed path _) = path
target_template get_root = "/"
target_template (get_metrics _ _) = "/metrics"
target_template get_liveness = "/health/live"
target_template (get_readiness _) = "/health"

abbrev pub success : {S : Type 0} → Call S → ℕ
success (create _ _ _ _) = 201
success (remove _) = 204
success _ = 200

abbrev pub wrap : {A B : Type 0} → (A → B) → Result A → Result B
wrap f (ok a) = ok (f a)
wrap f (err e) = err e

module _ (D : Database) (s : Settings) where
  open D use {Db}

  abbrev pub perform_valid :
      Clock
      → (id : ℕ) → (World Db → World Db)
      → Result TaskCreate
      → World Db
      → Result Payload × World Db
  perform_valid now id between (err e) w = (err e, w)
  perform_valid now id between (ok body) w =
      let (r, w') = create_task D now id between body w in (wrap task (reading r), w')

  -- What an endpoint returns or raises, once the key is accepted.
  abbrev pub perform_admitted : Call Db → World Db → Result Payload × World Db
  perform_admitted (create now id between raw) w =
      perform_valid now id between (validate_create s raw) w
  perform_admitted (list status limit offset) w = (
    if is_page limit
        then ok (tasks (listing D limit offset (list_tasks D status limit offset w.db)))
        else err limit_error,
    w,
  )
  perform_admitted (read id) w = (wrap task (reading (get_task D id w.db)), w)
  perform_admitted (update now id status) w =
      let (r, w') = update_status D now id status w in (wrap task (reading r), w')
  perform_admitted (invalid _ es) w = (err (request_validation_error es), w)
  perform_admitted (remove id) w = let (r, w') = delete_task D id w in (wrap (λ u. nothing) r, w')

  abbrev pub perform_keyed : Result (Unit {0}) → Call Db → World Db → Result Payload × World Db
  perform_keyed (err e) call w = (err e, w)
  perform_keyed (ok _) call w = perform_admitted call w

  unfoldable pub perform : Option String → Call Db → World Db → Result Payload × World Db
  perform key call w = perform_keyed (require_api_key s key) call w

-- The handlers inside the middleware; another exception goes on.
abbrev pub is_handled : Exception → Bool
is_handled (api_error _ _ _) = true
is_handled (request_validation_error _) = true
is_handled (http_exception _ _) = true
is_handled _ = false

abbrev pub answer : (status_code : ℕ) → Result Payload → Result (Response Payload)
answer n (ok p) = ok (respond n (ok p))
answer n (err e) = if is_handled e then ok (handle e) else err e

-- The handler for `Exception`.
abbrev pub last_resort : Result (Response Payload) → Response Payload
last_resort (ok response) = response
last_resort (err e) = handle e

abbrev pub map_body : {A B : Type 0} → (A → B) → Body A → Body B
map_body f (content a) = content (f a)
map_body f (error code message) = error code message

abbrev pub map_response : {A B : Type 0} → (A → B) → Response A → Response B
map_response f r = record {
  status_code = r.status_code;
  body = map_body f r.body;
  request_id = r.request_id;
}

module _ (D : Database) (s : Settings) where
  open D use {Db}

  unfoldable pub resolve_target :
      Option String → Target Db → World Db → Result (Response Payload) × World Db
  unfolding perform root metrics liveness readiness
  resolve_target key (keyed call) w =
      let (r, w') = perform D s key call w in (answer (success call) r, w')
  resolve_target key (malformed _ es) w = (answer 200 (err (request_validation_error es)), w)
  resolve_target key get_root w = (ok (map_response texts root), w)
  resolve_target key (get_metrics text content_type) w =
      (ok (map_response exposition (metrics text content_type)), w)
  resolve_target key get_liveness w = (ok (map_response texts liveness), w)
  resolve_target key (get_readiness r) w = (ok (map_response texts (readiness r)), w)

  abbrev pub route : Target Db → Request → Option String → World Db → Outcome Payload (World Db)
  route target request ctx w =
      let (r, w') = resolve_target request.api_key target w in
      record { result = r; route = some (target_template target); world = w' }

  unfoldable pub serve :
      (fresh : String)
      → Target Db
      → Request
      → Server (World Db)
      → Response Payload × Server (World Db)
  unfolding resolve_target
  serve fresh target request v =
      let (r, v') = dispatch s fresh (route target) request v in (last_resort r, v')
