-- ===== src/Routers/Storage.antt =====
-- app/routers/tasks.py and app/schemas.py: requests that the validators accept and the columns of
-- app/models.py cannot hold.
use taskpilot_assessment.Prelude.{
  ℕ, String, length_text, ◌∙◌, ◌≤◌, ◌≡◌, refl, true, false, Bool, not, ◌&&◌, Option, none, some,
  arith, is_ascii, is_empty,
}
use taskpilot_assessment.Errors.{ok}
use taskpilot_assessment.Config.{Settings}
use taskpilot_assessment.Json.{obj}
use taskpilot_assessment.Models.Columns.{has_nul, is_jsonb, is_varchar_or_null, is_storable}
use taskpilot_assessment.Http.{envelope, handle}
use taskpilot_assessment.Auth.{require_api_key}
use taskpilot_assessment.Auth.Laws.{require_api_key_lem}
use taskpilot_assessment.Schemas.{TaskCreateFields, TaskCreate, validate_create}
use taskpilot_assessment.Schemas.Laws.{validate_create_lem}
use taskpilot_assessment.Service.{new_task}
use taskpilot_assessment.Service.Create.{IsFree, create_task_unstorable}
use taskpilot_assessment.Database.{Database, Clock, World}
use taskpilot_assessment.Routers.{post_task}

abbrev nul_free : Option String → Bool
nul_free none = true
nul_free (some k) = not (has_nul k)

-- No text of the request has the code point 0, and no number in the payload is NaN or infinite.
abbrev pub is_clean : TaskCreate → Bool
is_clean body =
    not (has_nul body.title) && (nul_free body.idempotency_key && is_jsonb (obj body.payload))

is_varchar-short :
    (k : Option String)
    → ((x : String) → k ≡ some x → length_text x ≤ 255)
    → is_varchar_or_null k ≡ nul_free k
is_varchar-short none h = refl
is_varchar-short (some x) h = ground (arith, h x refl)

-- Of what the columns ask for, the validators leave out the texts and the numbers.
is_storable-new_task :
    (s : Settings) (now id : ℕ) (raw : TaskCreateFields) (body : TaskCreate)
    → validate_create s raw ≡ ok body
    → s.title_max_length ≤ 255
    → is_storable (new_task now id body) ≡ is_clean body
unfolding is_storable
is_storable-new_task s now id raw body valid small =
    let sound = validate_create_lem s raw body valid in
    ground (arith, sound.title_bounds.1, is_varchar-short body.idempotency_key sound.key_bound)

module _ (D : Database) where
  open D use {Db}

  -- A request with the right key, its idempotency key not in use, that the validators accept although one
  -- of its texts has the code point 0 or a number of its payload is NaN or infinite, is answered with an
  -- internal error, 500, when titles have at most the 255 characters of their column; nothing is stored
  -- or counted.
  pub post_task_unstorable :
      (s : Settings) (now : Clock) (id : ℕ) (between : World Db → World Db) (raw : TaskCreateFields)
      (body : TaskCreate) (w : World Db)
      → is_ascii s.api_key ≡ true
      → is_empty s.api_key ≡ false
      → validate_create s raw ≡ ok body
      → s.title_max_length ≤ 255
      → IsFree D body.idempotency_key w.db
      → is_clean body ≡ false
      → post_task D s (some s.api_key) now id between raw w
        ≡ (envelope 500 "internal_error" "An internal error occurred.", between w)
  unfolding post_task handle
  post_task_unstorable s now id between raw body w ascii there valid small free odd =
      let open' : require_api_key s (some s.api_key) ≡ ok tt =
        (require_api_key_lem s (some s.api_key)).1 (refl, ascii, there) in
      let raised =
        create_task_unstorable D now id between body w
          (is_storable-new_task s now.db id raw body valid small ∙ odd) free in
      rw (open', valid, raised, post_task) refl
