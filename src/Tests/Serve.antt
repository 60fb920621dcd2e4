-- ===== src/Tests/Serve.antt =====
-- Requests to the whole application on the small table.
use taskpilot_assessment.Prelude.{◌≡◌, ◌≢◌, refl, false, none, some, [], ◌∷◌, arith, eq_iff}
use taskpilot_assessment.Errors.{err, dbapi_error}
use taskpilot_assessment.Routers.Health.{readiness}
use taskpilot_assessment.Config.{default_settings}
use taskpilot_assessment.Http.{Request, content, envelope}
use taskpilot_assessment.Middleware.{Server, is_oversized, dispatch}
use taskpilot_assessment.Middleware.Laws.{IsHandled}
use taskpilot_assessment.Database.{World}
use taskpilot_assessment.Database.Memory.{Table, memory}
use taskpilot_assessment.App.Serve.{
  read, remove, keyed, get_readiness, texts, perform, route, serve,
}
use taskpilot_assessment.App.Serve.Responses.{served}
use taskpilot_assessment.App.Serve.Laws.{serve_lem, serve_closed}
use taskpilot_assessment.Tests.Data.{world}

abbrev v : Server (World Table)
v = record {
  request_id_ctx = none;
  http_requests_total = λ m e n. 0;
  http_request_durations = [];
  logged = [];
  world = world;
}

abbrev get_request : Request
get_request = record {
  method = "GET";
  path = "/tasks/1";
  request_id = none;
  content_length = none;
  api_key = some "change-me-in-production";
}

small : is_oversized default_settings none ≡ false
unfolding is_oversized
small = refl

serve_lem_example :
    (v' : Server (World Table)) × (serve memory default_settings "id-1"
        (keyed (read 1))
        get_request
        v
      ≡ (
        served "id-1" 200
            (perform memory default_settings (some "change-me-in-production") (read 1) world).0,
        v',
      ))
    × IsHandled get_request "id-1"
        (route memory default_settings (keyed (read 1)) get_request (some "id-1") world)
        v
        v'
    × (v'.world
        ≡ (perform memory default_settings (some "change-me-in-production") (read 1) world).1)
serve_lem_example = serve_lem memory default_settings "id-1" (keyed (read 1)) get_request v small

-- The readiness probe without a key, when the database does not answer.
abbrev probe : Request
probe = record get_request { path = "/health"; api_key = none }

unready :
    (serve memory default_settings "id-3" (get_readiness (err dbapi_error)) probe v).0 ≡ record {
      status_code = 503;
      body = content (texts (("status", "unhealthy") ∷ ("database", "unreachable") ∷ []));
      request_id = some "id-3";
    }
unfolding serve readiness dispatch
unready = refl

abbrev delete_request : Request
delete_request = record get_request { method = "DELETE"; api_key = some "clé" }

guess : delete_request.api_key ≢ some default_settings.api_key
guess h = ground (arith, h, eq_iff "clé" "change-me-in-production")

serve_closed_example :
    (v' : Server (World Table)) × (serve memory default_settings "id-2"
        (keyed (remove 1))
        delete_request
        v
      ≡ (envelope 500 "internal_error" "An internal error occurred.", v'))
    × IsHandled delete_request "id-2"
        (route memory default_settings (keyed (remove 1)) delete_request (some "id-2") world)
        v
        v'
    × (v'.world ≡ world)
serve_closed_example =
    serve_closed memory default_settings "id-2" (remove 1) delete_request v small guess
