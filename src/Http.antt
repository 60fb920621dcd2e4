-- ===== src/Http.antt =====
-- app/errors.py: the error envelope and the exception handlers, and the parts of a request and of a
-- response that the code reads and writes.
use taskpilot_assessment.Prelude.{
  ℕ, String, not, Option, none, some, List, [], ◌∷◌, ◌==◌, nat_eq, string_eq, filter, if◌then◌else◌,
  is_empty, append_text, map,
}
use taskpilot_assessment.Errors.{
  Exception, ErrorItem, api_error, request_validation_error, http_exception,
}

pub record Request : Type 0 where
  pub method : String
  pub path : String
  -- `X-Request-ID`, `content-length` and `X-API-Key`
  pub request_id : Option String
  pub content_length : Option String
  pub api_key : Option String

pub data Body (A : Type 0) : Type 0 where
  content : A → Body A
  error : (code message : String) → Body A

pub record Response (A : Type 0) : Type 0 where
  pub status_code : ℕ
  pub body : Body A
  -- the header `X-Request-ID`
  pub request_id : Option String

-- `_envelope`
abbrev pub envelope : {A : Type 0} → ℕ → (code message : String) → Response A
envelope status_code code message = record {
  status_code = status_code;
  body = error code message;
  request_id = none;
}

-- `sep.join(parts)`
abbrev pub join : String → List String → String
join sep [] = ""
join sep (part ∷ []) = part
join sep (part ∷ next ∷ parts) = append_text part (append_text sep (join sep (next ∷ parts)))

-- One part of the message of a 422: the field and the reason.
abbrev pub detail_text : ErrorItem → String
detail_text e =
    append_text (join "." (filter (λ p. not (p == "body")) e.loc)) (append_text ": " e.msg)

abbrev pub validation_message : List ErrorItem → String
validation_message es =
    let details = join "; " (map detail_text es) in
    if is_empty details then "Invalid request." else details

abbrev pub http_code : ℕ → String
http_code n =
    if n == 404 then "not_found" else if n == 405 then "method_not_allowed" else "http_error"

-- The four handlers of `register_exception_handlers`.
unfoldable pub handle : {A : Type 0} → Exception → Response A
handle (api_error status_code code message) = envelope status_code code message
handle (request_validation_error es) = envelope 422 "validation_error" (validation_message es)
handle (http_exception n (some detail)) = envelope n (http_code n) detail
handle (http_exception n none) = envelope n (http_code n) "Request failed."
handle _ = envelope 500 "internal_error" "An internal error occurred."
