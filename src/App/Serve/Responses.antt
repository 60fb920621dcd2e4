-- ===== src/App/Serve/Responses.antt =====
-- The responses to what an endpoint returns or raises.
use taskpilot_assessment.Prelude.{
  ℕ, String, ◌≡◌, ◌∙◌, refl, sym, none, some, nat_eq, Bool-cases, inl, inr,
}
use taskpilot_assessment.Errors.{
  Exception, Result, ok, err, api_error, request_validation_error, http_exception,
}
use taskpilot_assessment.Http.{Response, content, error, handle, validation_message, http_code}
use taskpilot_assessment.Middleware.Laws.{labelled}
use taskpilot_assessment.Routers.{respond}
use taskpilot_assessment.App.Serve.{
  Call, create, list, read, update, remove, invalid, Payload, wrap, is_handled, answer, last_resort,
  map_response, success,
}

pub map_response-handle :
    {A B : Type 0} (f : A → B) (e : Exception) → map_response f (handle e) ≡ handle e
unfolding handle
map_response-handle f (api_error n code message) = refl
map_response-handle f (request_validation_error es) = refl
map_response-handle f (http_exception n none) = refl
map_response-handle f (http_exception n (some detail)) = refl
map_response-handle f _ = refl

pub answer-handle : (n : ℕ) (e : Exception) → last_resort (answer n (err e)) ≡ handle e
answer-handle n e = elim (Bool-cases (is_handled e)) [ inl h ↦ rw h refl | inr h ↦ rw h refl ]

pub answer-respond :
    {A : Type 0} (f : A → Payload) (n : ℕ) (r : Result A)
    → last_resort (answer n (wrap f r)) ≡ map_response f (respond n r)
answer-respond f n (ok a) = refl
answer-respond f n (err e) = answer-handle n e ∙ sym (map_response-handle f e)

-- The status of a call that succeeds.
abbrev pub code : {S : Type 0} → Call S → ℕ
code (create _ _ _ _) = 201
code (list _ _ _) = 200
code (read _) = 200
code (update _ _ _) = 200
code (remove _) = 204
code (invalid _ _) = 200

pub success-code : {S : Type 0} (call : Call S) → success call ≡ code call
success-code (create _ _ _ _) = refl
success-code (list _ _ _) = refl
success-code (read _) = refl
success-code (update _ _ _) = refl
success-code (remove _) = refl
success-code (invalid _ _) = refl

-- The response to what an endpoint returns or raises: an error that the application raises on purpose has
-- the id of the request, any other is a 500 without it.
abbrev pub served : (id : String) → (status_code : ℕ) → Result Payload → Response Payload
served id n (ok p) = record { status_code = n; body = content p; request_id = some id }
served id n (err (api_error m name message)) = record {
  status_code = m;
  body = error name message;
  request_id = some id;
}
served id n (err (request_validation_error es)) = record {
  status_code = 422;
  body = error "validation_error" (validation_message es);
  request_id = some id;
}
served id n (err (http_exception m (some detail))) = record {
  status_code = m;
  body = error (http_code m) detail;
  request_id = some id;
}
served id n (err (http_exception m none)) = record {
  status_code = m;
  body = error (http_code m) "Request failed.";
  request_id = some id;
}
served id n (err _) = record {
  status_code = 500;
  body = error "internal_error" "An internal error occurred.";
  request_id = none;
}

pub labelled-served :
    (id : String) (n : ℕ) (r : Result Payload)
    → last_resort (labelled id (answer n r)) ≡ served id n r
unfolding handle
labelled-served id n (ok p) = refl
labelled-served id n (err (api_error m name message)) = refl
labelled-served id n (err (request_validation_error es)) = refl
labelled-served id n (err (http_exception m (some detail))) = refl
labelled-served id n (err (http_exception m none)) = refl
labelled-served id n (err _) = refl

-- The responses of the probes, with the id of the request.
abbrev pub probed : (id : String) → (status_code : ℕ) → Payload → Response Payload
probed id n p = record { status_code = n; body = content p; request_id = some id }
