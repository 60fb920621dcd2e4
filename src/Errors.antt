-- ===== src/Errors.antt =====
-- What the code raises, and results of code that may raise. `api_error` is `ApiError` of
-- app/errors.py and `execution_error` is `TaskExecutionError` of app/worker/executor.py; the others
-- come from Python (`OverflowError`, `TimeoutError`, `ValueError`, `TypeError`), from SQLAlchemy
-- (`StaleDataError`, `IntegrityError`, `InvalidRequestError`, and `DBAPIError` for values that a column
-- cannot hold) and from FastAPI
-- (`RequestValidationError`, `HTTPException`).
use taskpilot_assessment.Prelude.{ℕ, String, ◌≡◌, refl, ◌⊎◌, inl, inr, Option, List}

-- One item of `RequestValidationError.errors()`.
pub record ErrorItem : Type 0 where
  pub loc : List String
  pub msg : String

pub data Exception : Type 0 where
  api_error : (status_code : ℕ) → (code message : String) → Exception
  execution_error : (message : String) → Exception
  value_error : (message : String) → Exception
  request_validation_error : List ErrorItem → Exception
  http_exception : (status_code : ℕ) → (detail : Option String) → Exception
  type_error overflow_error timeout_error stale_data_error integrity_error invalid_request_error
        dbapi_error :
      Exception

pub data Result {ℓ} (A : Type ℓ) : Type ℓ where
  ok : A → Result A
  err : Exception → Result A

infixl 5 ◌>>=◌
abbrev pub ◌>>=◌ {ℓ κ} : {A : Type ℓ} {B : Type κ} → Result A → (A → Result B) → Result B
ok a >>= f = f a
err e >>= f = err e

pub Result-cases {ℓ} :
    {A : Type ℓ} (r : Result A) → ((a : A) × (r ≡ ok a)) ⊎ ((e : Exception) × (r ≡ err e))
Result-cases (ok a) = inl (a, refl)
Result-cases (err e) = inr (e, refl)
