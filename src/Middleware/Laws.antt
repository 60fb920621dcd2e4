-- ===== src/Middleware/Laws.antt =====
-- What the middleware does around the application.
use taskpilot_assessment.Prelude.{
  ℕ, String, true, false, ◌≡◌, refl, Option, none, some, ◌∷◌, arith, parse_int, ◌<◌, ◌≤◌, ◌⊎◌, inl,
  inr, ltb, Bool-cases, Option-cases,
}
use taskpilot_assessment.Errors.{Result, ok, err}
use taskpilot_assessment.Config.{Settings}
use taskpilot_assessment.Http.{Request, Response, error}
use taskpilot_assessment.Middleware.{
  Server, Outcome, choose_request_id, is_oversized, endpoint, count_label, finish, dispatch,
}

module _ {A : Type 0} where
  -- The status that is counted and logged.
  abbrev pub status_of : Result (Response A) → ℕ
  status_of (ok response) = response.status_code
  status_of (err e) = 500

  -- The result with the id of the request in its headers.
  abbrev pub labelled : String → Result (Response A) → Result (Response A)
  labelled id (ok response) = ok (record response { request_id = some id })
  labelled id (err e) = err e

  abbrev pub message_of : Result (Response A) → String
  message_of (ok response) = "request"
  message_of (err e) = "request_failed"

-- The guard, for every content length.
is_oversized_lem :
    (s : Settings) (content_length : Option String)
    → (is_oversized s content_length ≡ true)
        × ((text : String) × (n : ℕ) × (content_length ≡ some text)
            × (parse_int text ≡ some (false, n))
            × (s.max_request_bytes < n))
      ⊎ (is_oversized s content_length ≡ false)
        × ((text : String) (n : ℕ)
            → content_length ≡ some text
            → parse_int text ≡ some (false, n)
            → n ≤ s.max_request_bytes)
unfolding is_oversized
is_oversized_lem s none = inr (refl, λ text n e. ground arith)
is_oversized_lem s (some text) = elim (Option-cases (parse_int text)) [
  | inl no_number ↦ inr (rw no_number refl, λ t n e h. ground arith)
  | inr ((true, n), negative) ↦ inr (rw negative refl, λ t m e h. ground arith)
  | inr ((false, n), number) ↦ elim (Bool-cases (ltb s.max_request_bytes n)) [
    | inl long ↦ inl (rw (number, long) refl, (text, n, refl, number, ground arith))
    | inr short ↦ inr (rw (number, short) refl, λ t m e h. ground arith)
  ]
]

module _ {A W : Type 0} where
  -- One request that reaches the application: it is counted once, under its method, its route and its
  -- status, it is logged once, with its id, and the context is as before.
  pub record IsHandled (request : Request) (id : String) (outcome : Outcome A W) (v v' : Server W)
      : Type 0 where
    pub counted :
        v'.http_requests_total
        ≡ count_label v.http_requests_total request.method
            (endpoint request outcome.route)
            (status_of outcome.result)
    pub timed :
        v'.http_request_durations
        ≡ (request.method, endpoint request outcome.route) ∷ v.http_request_durations
    pub noted :
        v'.logged
        ≡ record {
          message = message_of outcome.result;
          method = request.method;
          path = request.path;
          status_code = status_of outcome.result;
          request_id = some id;
        }
          ∷ v.logged
    pub restored : v'.request_id_ctx ≡ v.request_id_ctx
    pub served : v'.world ≡ outcome.world

  finish_lem :
      (request : Request) (id : String) (outcome : Outcome A W) (r : Result (Response A))
      (v : Server W)
      → outcome.result ≡ r
      → (v' : Server W) × (finish request id v.request_id_ctx outcome.route r
            (record v { request_id_ctx = some id; world = outcome.world })
          ≡ (labelled id outcome.result, v'))
        × IsHandled request id outcome v v'
  finish_lem request id outcome (ok response) v e = (
    (finish {A = A} request id v.request_id_ctx outcome.route (ok response)
        (record v { request_id_ctx = some id; world = outcome.world })).1,
    rw e refl,
    record { counted = rw e refl; timed = refl; noted = rw e refl; restored = refl; served = refl },
  )
  finish_lem request id outcome (err x) v e = (
    (finish {A = A} request id v.request_id_ctx outcome.route (err x)
        (record v { request_id_ctx = some id; world = outcome.world })).1,
    rw e refl,
    record { counted = rw e refl; timed = refl; noted = rw e refl; restored = refl; served = refl },
  )

  -- A request that is not oversized is answered by the application, which sees its id in the context;
  -- the response carries the id, an exception goes on to the caller, and either way the request is
  -- counted, timed and logged once and the context is restored.
  pub dispatch_lem :
      (s : Settings) (fresh : String) (call_next : Request → Option String → W → Outcome A W)
      (request : Request) (v : Server W)
      → is_oversized s request.content_length ≡ false
      → (v' : Server W) × (dispatch s fresh call_next request v ≡ (
        labelled
            (choose_request_id fresh request.request_id)
            (call_next request (some (choose_request_id fresh request.request_id)) v.world).result,
        v',
      ))
        × IsHandled request
            (choose_request_id fresh request.request_id)
            (call_next request (some (choose_request_id fresh request.request_id)) v.world)
            v
            v'
  unfolding dispatch
  dispatch_lem s fresh call_next request v small =
      let id = choose_request_id fresh request.request_id in
      let outcome = call_next request (some id) v.world in
      let (v', e, facts) = finish_lem request id outcome outcome.result v refl in
      (v', rw small e, facts)

  -- A request is answered with 413, the id and the code `payload_too_large` if its content length is a
  -- number above the limit, and then the application is not called, and the context, the counters, the
  -- log and the rest of the state are as before. A request whose content length is at most the limit,
  -- negative, not a number or absent gets what the application returns or raises.
  pub dispatch_oversized :
      (s : Settings) (fresh : String) (call_next : Request → Option String → W → Outcome A W)
      (request : Request) (v : Server W)
      → let id = choose_request_id fresh request.request_id in
        let outcome = call_next request (some id) v.world in
        ((text : String) × (n : ℕ) × (request.content_length ≡ some text)
          × (parse_int text ≡ some (false, n))
          × (s.max_request_bytes < n)
          × (dispatch s fresh call_next request v ≡ (
            ok (record {
              status_code = 413;
              body = error "payload_too_large" "Request body exceeds the maximum allowed size.";
              request_id = some id;
            }),
            v,
          )))
        ⊎ ((text : String) (n : ℕ)
            → request.content_length ≡ some text
            → parse_int text ≡ some (false, n)
            → n ≤ s.max_request_bytes)
          × ((v' : Server W) × (dispatch s fresh call_next request v
                ≡ (labelled id outcome.result, v'))
              × (v'.world ≡ outcome.world))
  unfolding dispatch
  dispatch_oversized s fresh call_next request v =
      elim (is_oversized_lem s request.content_length) [
        | inl (large, (text, n, given, number, above)) ↦
            inl (text, n, given, number, above, rw (large, dispatch) refl)
        | inr (small, below) ↦
            let (v', e, facts) = dispatch_lem s fresh call_next request v small in
            inr (below, (v', e, facts.served))
      ]
