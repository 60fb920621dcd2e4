-- ===== src/Logging.antt =====
-- app/logging_config.py: `RequestIdFilter` and `configure_logging`. `getattr` on the module `logging`
-- is the argument `level_named`.
pub mod Laws
use taskpilot_assessment.Prelude.{
  ℕ, String, Bool, true, false, ◌==◌, string_eq, Option, none, some, List, [], ◌∷◌, if◌then◌else◌,
  upper_ascii,
}

-- A log record: its message, the fields of `extra`, and the attribute that the filter may set.
pub record Line : Type 0 where
  pub message : String
  pub method : String
  pub path : String
  pub status_code : ℕ
  pub request_id : Option String

-- What `hasattr(record, "request_id")` keeps, and `request_id_ctx.get()` else, where it is set.
abbrev pub attach : (ctx : Option String) → (there : Option String) → Option String
attach ctx (some id) = some id
attach ctx none = ctx

-- `RequestIdFilter.filter`: the record is always let through.
abbrev pub request_id_filter : (ctx : Option String) → Line → Bool × Line
request_id_filter ctx line = (true, record line { request_id = attach ctx line.request_id })

-- A stream handler with its formatter's pattern and renamed fields, and its filters.
pub record Handler : Type 0 where
  pub format : String
  pub rename_fields : List (String × String)
  pub filters : List (Option String → Line → Bool × Line)

pub record Logger : Type 0 where
  pub handlers : List Handler
  pub level : ℕ
  pub propagate : Bool

-- The root logger and the others by their names.
pub record Loggers : Type 0 where
  pub root_logger : Logger
  pub named : String → Logger

abbrev pub json_handler : Handler
json_handler = record {
  format = "%(asctime)s %(levelname)s %(name)s %(message)s";
  rename_fields = ("asctime", "timestamp") ∷ ("levelname", "level") ∷ ("name", "logger") ∷ [];
  filters = request_id_filter ∷ [];
}

abbrev pub or_info : Option ℕ → ℕ
or_info (some level) = level
or_info none = 20

unfoldable pub configure_logging :
    (level_named : String → Option ℕ) → (level : String) → Loggers → Loggers
configure_logging level_named level l = record {
  root_logger = record l.root_logger {
    handlers = json_handler ∷ [];
    level = or_info (level_named (upper_ascii level));
  };
  named = λ n.
      if n == "uvicorn.access"
      then record (l.named n) { handlers = []; propagate = false }
      else l.named n;
}
