-- ===== src/Config.antt =====
-- app/config.py: the settings. Integers that the environment may set are natural numbers here;
-- a negative value is not modelled.
pub mod Laws
use taskpilot_assessment.Prelude.{
  ℕ, String, Bool, true, not, ◌&&◌, ◌==◌, string_eq, List, [], ◌∷◌, if◌then◌else◌, strip, split,
  is_empty, lower_ascii,
}
use taskpilot_assessment.Errors.{Result, ok, err, value_error}

abbrev pub insecure_default_api_key : String
insecure_default_api_key = "change-me-in-production"

pub record Settings : Type 0 where
  pub environment : String
  pub database_url : String
  pub db_pool_size : ℕ
  pub db_max_overflow : ℕ
  pub db_pool_timeout_seconds : ℕ
  pub db_pool_recycle_seconds : ℕ
  pub api_key : String
  pub cors_allow_origins : String
  pub run_worker : Bool
  pub worker_poll_interval_seconds : ℕ
  pub max_retries : ℕ
  pub retry_backoff_base_seconds : ℕ
  pub worker_batch_size : ℕ
  pub worker_concurrency : ℕ
  pub execution_timeout_seconds : ℕ
  pub running_task_timeout_seconds : ℕ
  pub worker_metrics_port : ℕ
  pub log_level : String
  pub max_payload_bytes : ℕ
  pub max_request_bytes : ℕ
  pub title_max_length : ℕ

-- `Settings()` in an empty environment.
abbrev pub default_settings : Settings
default_settings = record {
  environment = "development";
  database_url = "postgresql+asyncpg://taskpilot:taskpilot@db:5432/taskpilot";
  db_pool_size = 10;
  db_max_overflow = 20;
  db_pool_timeout_seconds = 30;
  db_pool_recycle_seconds = 1800;
  api_key = insecure_default_api_key;
  cors_allow_origins = "";
  run_worker = true;
  worker_poll_interval_seconds = 60;
  max_retries = 3;
  retry_backoff_base_seconds = 60;
  worker_batch_size = 20;
  worker_concurrency = 5;
  execution_timeout_seconds = 30;
  running_task_timeout_seconds = 300;
  worker_metrics_port = 9100;
  log_level = "INFO";
  max_payload_bytes = 65536;
  max_request_bytes = 1048576;
  title_max_length = 255;
}

-- `lower` beyond ASCII is left out: no other code point becomes a letter of "production".
unfoldable pub is_production : Settings → Bool
is_production s = lower_ascii s.environment == "production"

-- The comprehension of `cors_origins` over the parts between commas.
abbrev pub origins : List String → List String
origins [] = []
origins (o ∷ os) = if not (is_empty (strip o)) then strip o ∷ origins os else origins os

unfoldable pub cors_origins : Settings → List String
unfolding split
cors_origins s = origins (split 44 s.cors_allow_origins)

-- `_reject_insecure_production_config`, which `get_settings` runs.
unfoldable pub reject_insecure_production_config : Settings → Result Settings
unfolding is_production
reject_insecure_production_config s =
    if is_production s && s.api_key == insecure_default_api_key
    then err (
        value_error
          "API_KEY is set to the insecure default while ENVIRONMENT=production. Set a strong API_KEY (e.g. `openssl rand -hex 32`) before deploying.")
    else ok s
