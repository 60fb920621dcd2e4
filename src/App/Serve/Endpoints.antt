-- ===== src/App/Serve/Endpoints.antt =====
-- The endpoints of the application are those of the routers.
use taskpilot_assessment.Prelude.{
  ℕ, String, ◌≡◌, ◌∙◌, refl, ap, sym, Option, nat_eq, Bool-cases, inl, inr,
}
use taskpilot_assessment.Errors.{Exception, request_validation_error, Result, err, Result-cases}
use taskpilot_assessment.Config.{Settings}
use taskpilot_assessment.Http.{Response, handle}
use taskpilot_assessment.Auth.{require_api_key}
use taskpilot_assessment.Schemas.{validate_create}
use taskpilot_assessment.Database.{Database, World}
use taskpilot_assessment.Service.{create_task, get_task, update_status, delete_task}
use taskpilot_assessment.Routers.{
  respond, reading, guarded, is_page, limit_error, post_task, get_tasks, get_one, patch_status,
  delete_one,
}
use taskpilot_assessment.App.Serve.{
  Call, create, list, read, update, remove, Payload, task, tasks, nothing, success, wrap, perform,
  answer, last_resort, map_response, invalid,
}
use taskpilot_assessment.App.Serve.Responses.{map_response-handle, answer-handle, answer-respond}

module _ (D : Database) (s : Settings) where
  open D use {Db}

  -- The endpoint that a call is for, as the routers give it.
  abbrev pub endpoint_of : Option String → Call Db → World Db → Response Payload × World Db
  endpoint_of key (create now id between raw) w =
      let (r, w') = post_task D s key now id between raw w in (map_response task r, w')
  endpoint_of key (list status limit offset) w =
      let (r, w') = get_tasks D s key status limit offset w in (map_response tasks r, w')
  endpoint_of key (read id) w = let (r, w') = get_one D s key id w in (map_response task r, w')
  endpoint_of key (update now id status) w =
      let (r, w') = patch_status D s key now id status w in (map_response task r, w')
  endpoint_of key (invalid _ es) w =
      guarded D s key (λ v. (handle (request_validation_error es), v)) w
  endpoint_of key (remove id) w =
      let (r, w') = delete_one D s key id w in (map_response (λ u. nothing) r, w')

  abbrev pub completed : ℕ → Result Payload × World Db → Response Payload × World Db
  completed n (r, w) = (last_resort (answer n r), w)

  raised :
      {A : Type 0} (f : A → Payload) (n : ℕ) (e : Exception) (w : World Db)
      → completed n (err e, w) ≡ (map_response f (handle e), w)
  raised f n e w = ap (λ r. (r, w)) (answer-handle n e ∙ sym (map_response-handle f e))

  returned :
      {A : Type 0} (f : A → Payload) (n : ℕ) (r : Result A) (w : World Db)
      → completed n (wrap f r, w) ≡ (map_response f (respond n r), w)
  returned f n r w = ap (λ x. (x, w)) (answer-respond f n r)

  -- With its handlers, what the endpoint returns or raises is the response of the endpoint in the routers, and
  -- leaves the same table and counters.
  pub perform-endpoint_of :
      (key : Option String) (call : Call Db) (w : World Db)
      → completed (success call) (perform D s key call w) ≡ endpoint_of key call w
  unfolding perform post_task get_tasks get_one patch_status delete_one
  perform-endpoint_of key (create now id between raw) w =
      elim (Result-cases (require_api_key s key)) [
        | inr (e, h) ↦ rw (h, perform, post_task) (raised task 201 e w)
        | inl (_, h) ↦ elim (Result-cases (validate_create s raw)) [
          | inr (e, h') ↦ rw (h, h', perform, post_task) (raised task 201 e w)
          | inl (body, h') ↦
              let (r, w') = create_task D now id between body w in
              rw (h, h', perform, post_task) (returned task 201 (reading r) w')
        ]
      ]
  perform-endpoint_of key (list status limit offset) w =
      elim (Result-cases (require_api_key s key)) [
        | inr (e, h) ↦ rw (h, perform, get_tasks) (raised tasks 200 e w)
        | inl (_, h) ↦ elim (Bool-cases (is_page limit)) [
          | inl p ↦ rw (h, p, perform, get_tasks) refl
          | inr p ↦ rw (h, p, perform, get_tasks) (raised tasks 200 limit_error w)
        ]
      ]
  perform-endpoint_of key (read id) w = elim (Result-cases (require_api_key s key)) [
    | inr (e, h) ↦ rw (h, perform, get_one) (raised task 200 e w)
    | inl (_, h) ↦ rw (h, perform, get_one) (returned task 200 (reading (get_task D id w.db)) w)
  ]
  perform-endpoint_of key (update now id status) w = elim (Result-cases (require_api_key s key)) [
    | inr (e, h) ↦ rw (h, perform, patch_status) (raised task 200 e w)
    | inl (_, h) ↦
        let (r, w') = update_status D now id status w in
        rw (h, perform, patch_status) (returned task 200 (reading r) w')
  ]
  perform-endpoint_of key (invalid path es) w = elim (Result-cases (require_api_key s key)) [
    | inr (e, h) ↦ rw (h, perform) (ap (λ r. (r, w)) (answer-handle 200 e))
    | inl (_, h) ↦
        rw (h, perform) (ap (λ r. (r, w)) (answer-handle 200 (request_validation_error es)))
  ]
  perform-endpoint_of key (remove id) w = elim (Result-cases (require_api_key s key)) [
    | inr (e, h) ↦ rw (h, perform, delete_one) (raised (λ u. nothing) 204 e w)
    | inl (_, h) ↦
        let (r, w') = delete_task D id w in
        rw (h, perform, delete_one) (returned (λ u. nothing) 204 r w')
  ]
