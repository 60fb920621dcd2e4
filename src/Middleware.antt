-- ===== src/Middleware.antt =====
-- app/middleware.py: `RequestLoggingMiddleware.dispatch`, with the two HTTP metrics of app/metrics.py
-- and the request id that app/logging_config.py adds to a log line. What is behind the middleware is
-- the argument `call_next`; the latency is left out.
pub mod Laws
use taskpilot_assessment.Prelude.{
  ℕ, suc, String, Bool, true, false, ◌&&◌, Option, none, some, List, ◌∷◌, ltb, ◌==◌, nat_eq,
  string_eq, if◌then◌else◌, is_empty, parse_int,
}
use taskpilot_assessment.Errors.{Exception, Result, ok, err}
use taskpilot_assessment.Config.{Settings}
use taskpilot_assessment.Logging.{Line, request_id_filter}
use taskpilot_assessment.Http.{Request, Response, envelope}

-- `request_id_ctx`, the counter by its labels, the observed labels of the histogram, the log, and the
-- rest of the program's state.
pub record Server (W : Type 0) : Type 0 where
  pub request_id_ctx : Option String
  pub http_requests_total : String → String → ℕ → ℕ
  pub http_request_durations : List (String × String)
  pub logged : List Line
  pub world : W

-- What a call of the application comes to: its response or exception, the template of the route that
-- was matched, and the state.
pub record Outcome (A W : Type 0) : Type 0 where
  pub result : Result (Response A)
  pub route : Option String
  pub world : W

-- `headers.get("X-Request-ID") or str(uuid4())`
abbrev pub choose_request_id : (fresh : String) → Option String → String
choose_request_id fresh none = fresh
choose_request_id fresh (some id) = if is_empty id then fresh else id

-- A length that is not a number is let through.
abbrev pub exceeds : ℕ → Option (Bool × ℕ) → Bool
exceeds limit none = false
exceeds limit (some (true, n)) = false
exceeds limit (some (false, n)) = ltb limit n

unfoldable pub is_oversized : Settings → Option String → Bool
is_oversized s none = false
is_oversized s (some content_length) = exceeds s.max_request_bytes (parse_int content_length)

-- `_endpoint`
abbrev pub endpoint : Request → Option String → String
endpoint request none = request.path
endpoint request (some template) = template

abbrev pub count_label : (String → String → ℕ → ℕ) → String → String → ℕ → String → String → ℕ → ℕ
count_label f method path status m e n =
    if method == m && path == e && status == n then suc (f m e n) else f m e n

module _ {W : Type 0} where
  -- The counter and the histogram.
  abbrev pub observe : Request → Option String → ℕ → Server W → Server W
  observe request route status_code v = record v {
    http_requests_total =
        count_label v.http_requests_total request.method (endpoint request route) status_code;
    http_request_durations = (request.method, endpoint request route) ∷ v.http_request_durations;
  }

  -- A line of the log, which goes through `RequestIdFilter`.
  abbrev pub emit : String → Request → ℕ → Server W → Server W
  emit message request status_code v = record v {
    logged =
        (request_id_filter v.request_id_ctx (record {
          message = message;
          method = request.method;
          path = request.path;
          status_code = status_code;
          request_id = none;
        })).1
        ∷ v.logged;
  }

  abbrev pub set_ctx : Option String → Server W → Server W
  set_ctx id v = record v { request_id_ctx = id }

abbrev pub too_large : {A : Type 0} → String → Response A
too_large request_id =
    record (envelope 413 "payload_too_large" "Request body exceeds the maximum allowed size.") {
      request_id = some request_id;
    }

module _ {A W : Type 0} where
  -- After the call of the application; `token` is the context to go back to.
  abbrev pub finish :
      Request
      → String
      → Option String
      → Option String
      → Result (Response A)
      → Server W
      → Result (Response A) × Server W
  finish request id token route (err e) v =
      (err e, set_ctx token (emit "request_failed" request 500 (observe request route 500 v)))
  finish request id token route (ok response) v = (
    ok (record response { request_id = some id }),
    set_ctx token (
        emit "request" request response.status_code (observe request route response.status_code v)),
  )

  unfoldable pub dispatch :
      Settings
      → (fresh : String) → (call_next : Request → Option String → W → Outcome A W) → Request
      → Server W
      → Result (Response A) × Server W
  unfolding is_oversized
  dispatch s fresh call_next request v =
      let id = choose_request_id fresh request.request_id in
      let token = v.request_id_ctx in
      let outcome = call_next request (some id) v.world in
      if is_oversized s request.content_length
      then (ok (too_large id), v)
      else finish request id token outcome.route outcome.result
          (record v { request_id_ctx = some id; world = outcome.world })
