-- ===== src/App/Serve/Laws.antt =====
-- What a request gets from the whole application.
use taskpilot_assessment.Prelude.{
  ℕ, String, Bool, true, false, ◌≡◌, ◌≢◌, ◌∙◌, refl, ap, Option, none, some, [], ◌∷◌, arith, nat_eq,
  if◌then◌else◌, ◌||◌, ◌&&◌, is_empty, is_ascii, eq_iff,
}
use taskpilot_assessment.Errors.{ok, err, type_error, request_validation_error}
use taskpilot_assessment.Config.{Settings}
use taskpilot_assessment.Http.{Request, Response, envelope, handle}
use taskpilot_assessment.Auth.{require_api_key, unauthorized}
use taskpilot_assessment.Middleware.{Server, choose_request_id, is_oversized}
use taskpilot_assessment.Middleware.Laws.{IsHandled, labelled, dispatch_lem}
use taskpilot_assessment.Database.{Database, World}
use taskpilot_assessment.App.Serve.{
  Call, Target, keyed, malformed, get_root, get_metrics, get_liveness, get_readiness, Payload,
  texts, exposition, success, perform, last_resort, resolve_target, route, serve,
}
use taskpilot_assessment.Routers.Health.{root, metrics, liveness, readiness}
use taskpilot_assessment.App.Serve.Responses.{code, success-code, served, probed, labelled-served}

module _ (D : Database) (s : Settings) where
  open D use {Db}

  -- The response to a request with the id, and the table and the counters that it leaves.
  abbrev pub expected :
      (id : String) → Option String → Target Db → World Db → Response Payload × World Db
  expected id key (keyed call) w =
      let (r, w') = perform D s key call w in (served id (code call) r, w')
  expected id key (malformed _ es) w = (served id 200 (err (request_validation_error es)), w)
  expected id key get_root w = (
    probed id 200 (
        texts (
          ("service", "TaskPilot")
          ∷ ("status", "ok")
          ∷ ("docs", "/docs")
          ∷ ("health", "/health")
          ∷ ("metrics", "/metrics")
          ∷ [])),
    w,
  )
  expected id key (get_metrics text content_type) w =
      (probed id 200 (exposition (text, content_type)), w)
  expected id key get_liveness w = (probed id 200 (texts (("status", "ok") ∷ [])), w)
  expected id key (get_readiness (ok _)) w =
      (probed id 200 (texts (("status", "ok") ∷ ("database", "ok") ∷ [])), w)
  expected id key (get_readiness (err _)) w =
      (probed id 503 (texts (("status", "unhealthy") ∷ ("database", "unreachable") ∷ [])), w)

  resolve_target-expected :
      (id : String) (key : Option String) (target : Target Db) (w : World Db)
      → (last_resort (labelled id (resolve_target D s key target w).0)
          ≡ (expected id key target w).0)
        × ((resolve_target D s key target w).1 ≡ (expected id key target w).1)
  unfolding resolve_target root metrics liveness readiness
  resolve_target-expected id key (keyed call) w =
      let (r, w') = perform D s key call w in
      (labelled-served id (success call) r ∙ ap (λ n. served id n r) (success-code call), refl)
  resolve_target-expected id key (malformed _ es) w =
      (labelled-served id 200 (err (request_validation_error es)), refl)
  resolve_target-expected id key get_root w = (refl, refl)
  resolve_target-expected id key (get_metrics text content_type) w = (refl, refl)
  resolve_target-expected id key get_liveness w = (refl, refl)
  resolve_target-expected id key (get_readiness (ok _)) w = (refl, refl)
  resolve_target-expected id key (get_readiness (err _)) w = (refl, refl)

  -- A request for a route of the routers that is not oversized goes through the whole application.
  -- To the router of the tasks, what its endpoint returns is answered with the status of the
  -- endpoint and the id of the request, what it raises as an ApiError, a validation error or an
  -- HTTPException with that error's status and code and the id, and any other exception with 500
  -- and without the id. A body that is refused as not being JSON is answered with 422 and a probe
  -- with 200, or 503 where the database does not answer, whatever the key is. The request is
  -- counted, timed and logged once, the context is restored, and the table and its counters are as
  -- the endpoint left them.
  pub serve_lem :
      (fresh : String) (target : Target Db) (request : Request) (v : Server (World Db))
      → is_oversized s request.content_length ≡ false
      → let id = choose_request_id fresh request.request_id in
        let (response, w) = expected id request.api_key target v.world in
        (v' : Server (World Db)) × (serve D s fresh target request v ≡ (response, v'))
        × IsHandled request id (route D s target request (some id) v.world) v v'
        × (v'.world ≡ w)
  unfolding serve
  serve_lem fresh target request v small =
      let (v', e, facts) = dispatch_lem s fresh (route D s target) request v small in
      let id = choose_request_id fresh request.request_id in
      let (answered, left) = resolve_target-expected id request.api_key target v.world in
      (
        v',
        ap (λ p. (last_resort (p.0), p.1)) e ∙ ap (λ x. (x, v')) answered,
        facts,
        facts.served ∙ left,
      )

  -- Whether the key can be compared with that of the settings, or need not be.
  abbrev pub is_comparable : Option String → Bool
  is_comparable none = true
  is_comparable (some k) = is_empty k || is_ascii k && is_ascii s.api_key

  require_api_key-is_comparable :
      (key : Option String)
      → key ≢ some s.api_key
      → require_api_key s key ≡ err (if is_comparable key then unauthorized else type_error)
  unfolding require_api_key
  require_api_key-is_comparable none wrong = refl
  require_api_key-is_comparable (some k) wrong = ground (arith, eq_iff k s.api_key)

  abbrev refusal : (id : String) → Bool → Response Payload
  refusal id b =
      if b
      then record (envelope 401 "unauthorized" "Missing or invalid API key.") {
        request_id = some id;
      }
      else envelope 500 "internal_error" "An internal error occurred."

  served-refusal :
      (id : String) (n : ℕ) (b : Bool)
      → served id n (err (if b then unauthorized else type_error)) ≡ refusal id b
  unfolding handle
  served-refusal id n true = refl
  served-refusal id n false = refl

  -- A request to the router of the tasks that is not oversized, whose body, if any, is not refused
  -- as not being JSON, and that has no key or a wrong one, is answered with 401 and its id, or,
  -- where it has a key that is not empty and that key or the one of the settings is not ASCII, with
  -- 500 and without the id. Whichever endpoint it calls and whatever its parameters are, valid or
  -- not, the table and its counters stay as they are, and it is counted and logged.
  pub serve_closed :
      (fresh : String) (call : Call Db) (request : Request) (v : Server (World Db))
      → is_oversized s request.content_length ≡ false
      → request.api_key ≢ some s.api_key
      → let id = choose_request_id fresh request.request_id in
        (v' : Server (World Db)) × (serve D s fresh (keyed call) request v ≡ (
          (if is_comparable request.api_key
              then record (envelope 401 "unauthorized" "Missing or invalid API key.") {
                request_id = some id;
              }
              else envelope 500 "internal_error" "An internal error occurred."),
          v',
        ))
        × IsHandled request id (route D s (keyed call) request (some id) v.world) v v'
        × (v'.world ≡ v.world)
  unfolding perform
  serve_closed fresh call request v small wrong =
      let id = choose_request_id fresh request.request_id in
      let (v', e, facts, same) = serve_lem fresh (keyed call) request v small in
      let refused : perform D s request.api_key call v.world
          ≡ (err (if is_comparable request.api_key then unauthorized else type_error), v.world) =
        rw (require_api_key-is_comparable request.api_key wrong, perform) refl in
      (
        v',
        e
            ∙ ap (λ p. (served id (code call) (p.0), v')) refused
            ∙ ap (λ r. (r, v')) (served-refusal id (code call) (is_comparable request.api_key)),
        facts,
        same ∙ ap (λ p. p.1) refused,
      )
