-- ===== src/Auth/Laws.antt =====
-- Who the API key lets in.
use taskpilot_assessment.Prelude.{
  String, ◌≡◌, ◌↔◌, ◌≢◌, true, false, Option, none, some, arith, eq_iff, is_ascii, is_empty,
}
use taskpilot_assessment.Errors.{ok}
use taskpilot_assessment.Config.{
  Settings, is_production, reject_insecure_production_config, insecure_default_api_key,
}
use taskpilot_assessment.Auth.{require_api_key}

-- A request is let in exactly when it carries the key of the settings, which must be ASCII and not
-- empty.
pub require_api_key_lem :
    (s : Settings) (key : Option String)
    → (require_api_key s key ≡ ok tt)
      ↔ ((key ≡ some s.api_key) × (is_ascii s.api_key ≡ true) × (is_empty s.api_key ≡ false))
unfolding require_api_key
require_api_key_lem s none = ground arith
require_api_key_lem s (some k) = ground (arith, eq_iff k s.api_key)

-- Settings that start in production never let the default key in: with it, a request is unauthorized or
-- the comparison raises.
require_api_key_production :
    (s s' : Settings)
    → reject_insecure_production_config s ≡ ok s'
    → is_production s' ≡ true
    → require_api_key s' (some insecure_default_api_key) ≢ ok tt
unfolding reject_insecure_production_config require_api_key
require_api_key_production s s' started live =
    ground
      (arith, eq_iff insecure_default_api_key s'.api_key, eq_iff s.api_key insecure_default_api_key)
