-- ===== src/Routers/Health.antt =====
-- app/routers/health.py: the probes, which need no key. The query of readiness is given by its result.
use taskpilot_assessment.Prelude.{String, List, [], ◌∷◌, none}
use taskpilot_assessment.Errors.{Result, ok, err}
use taskpilot_assessment.Http.{Response, content}

-- A JSON object of texts.
abbrev pub Texts : Type 0
Texts = List (String × String)

-- GET /
unfoldable pub root : Response Texts
root = record {
  status_code = 200;
  body = content (
      ("service", "TaskPilot")
      ∷ ("status", "ok")
      ∷ ("docs", "/docs")
      ∷ ("health", "/health")
      ∷ ("metrics", "/metrics")
      ∷ []);
  request_id = none;
}

-- GET /metrics, for what `render_metrics` gives
unfoldable pub metrics : (exposition content_type : String) → Response (String × String)
metrics exposition content_type = record {
  status_code = 200;
  body = content (exposition, content_type);
  request_id = none;
}

-- GET /health/live
unfoldable pub liveness : Response Texts
liveness = record { status_code = 200; body = content (("status", "ok") ∷ []); request_id = none }

-- GET /health
unfoldable pub readiness : Result (Unit {0}) → Response Texts
readiness (ok _) = record {
  status_code = 200;
  body = content (("status", "ok") ∷ ("database", "ok") ∷ []);
  request_id = none;
}
readiness (err e) = record {
  status_code = 503;
  body = content (("status", "unhealthy") ∷ ("database", "unreachable") ∷ []);
  request_id = none;
}
