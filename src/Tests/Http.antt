-- ===== src/Tests/Http.antt =====
-- The HTTP layer on concrete requests.
use taskpilot_assessment.Prelude.{
  ℕ, String, ◌<◌, ◌⊎◌, ◌≡◌, ◌≤◌, refl, true, false, Option, none, some, [], arith, has_text, strip,
  suc, parse_int,
}
use taskpilot_assessment.Errors.{ok}
use taskpilot_assessment.Config.{
  Settings, default_settings, is_production, reject_insecure_production_config,
}
use taskpilot_assessment.Json.{end, dumps_size, obj}
use taskpilot_assessment.Http.{Request, content, error}
use taskpilot_assessment.Middleware.{Server, Outcome, dispatch, is_oversized}
use taskpilot_assessment.Middleware.Laws.{dispatch_oversized, dispatch_lem, labelled, IsHandled}
use taskpilot_assessment.Schemas.{
  TaskCreate, TaskCreateFields, naive, validate_create, normalise_scheduled_at,
}

abbrev live : Settings
live = record default_settings { environment = "Production"; api_key = "s3cret" }

-- A request with a padded title.
abbrev raw : TaskCreateFields
raw = record {
  title = "  send receipt ";
  payload = end;
  scheduled_at = some (record { clock = 900000000; zone = naive });
  idempotency_key = some "order-1000";
}

abbrev body : TaskCreate
body = record {
  title = "send receipt";
  payload = end;
  scheduled_at = some 900000000;
  idempotency_key = some "order-1000";
}

raw_text : has_text raw.title ≡ true
unfolding validate_create strip
raw_text = refl

raw_small : dumps_size (obj end) ≤ 65536
unfolding dumps_size
raw_small = omega arith

raw_time : normalise_scheduled_at raw.scheduled_at ≡ ok (some 900000000)
unfolding normalise_scheduled_at
raw_time = refl

abbrev keyless : TaskCreateFields
keyless = record raw { idempotency_key = none }

abbrev accented : Option String
accented = some "clé"

started : reject_insecure_production_config live ≡ ok live
unfolding reject_insecure_production_config
started = refl

in_production : is_production live ≡ true
unfolding is_production
in_production = refl

-- Behind the middleware: an application that answers with what it finds in the context.
abbrev echo : Request → Option String → ℕ → Outcome (Option String) ℕ
echo request id n = record {
  result = ok (record { status_code = 200; body = content id; request_id = none });
  route = some "/tasks/{task_id}";
  world = suc n;
}

abbrev get : Request
get = record {
  method = "GET";
  path = "/tasks/1";
  request_id = some "";
  content_length = none;
  api_key = none;
}

abbrev server : Server ℕ
server = record {
  request_id_ctx = none;
  http_requests_total = λ m e n. 0;
  http_request_durations = [];
  logged = [];
  world = 0;
}

get_small : is_oversized live none ≡ false
unfolding is_oversized
get_small = refl

dispatch_lem_example :
    (v' : Server ℕ) × (dispatch live "f00d" echo get server
      ≡ (labelled "f00d" (echo get (some "f00d") 0).result, v'))
    × IsHandled get "f00d" (echo get (some "f00d") 0) server v'
dispatch_lem_example = dispatch_lem live "f00d" echo get server get_small

get_counted :
    (dispatch live "f00d" echo get server).1.http_requests_total "GET" "/tasks/{task_id}" 200 ≡ 1
unfolding dispatch
get_counted = refl

abbrev upload : Request
upload = record get { method = "POST"; content_length = some "1048577"; request_id = some "r1" }

upload_length : parse_int "1048577" ≡ some (false, 1048577)
unfolding parse_int
upload_length = refl

dispatch_oversized_example :
    ((text : String) × (n : ℕ) × (upload.content_length ≡ some text)
      × (parse_int text ≡ some (false, n))
      × (1048576 < n)
      × (dispatch live "f00d" echo upload server ≡ (
        ok (record {
          status_code = 413;
          body = error "payload_too_large" "Request body exceeds the maximum allowed size.";
          request_id = some "r1";
        }),
        server,
      )))
    ⊎ ((text : String) (n : ℕ)
        → upload.content_length ≡ some text
        → parse_int text ≡ some (false, n)
        → n ≤ 1048576)
      × ((v' : Server ℕ) × (dispatch live "f00d" echo upload server
            ≡ (labelled "r1" (echo upload (some "r1") 0).result, v'))
          × (v'.world ≡ 1))
dispatch_oversized_example = dispatch_oversized live "f00d" echo upload server
