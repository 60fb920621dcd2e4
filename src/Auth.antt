-- ===== src/Auth.antt =====
-- app/auth.py: the API key. `secrets.compare_digest` of two `str` raises TypeError where one of them has
-- a code point that is not ASCII.
pub mod Laws
use taskpilot_assessment.Prelude.{
  String, Bool, not, ◌||◌, ◌&&◌, Option, none, some, ◌==◌, string_eq, if◌then◌else◌, is_empty,
  is_ascii,
}
use taskpilot_assessment.Errors.{Exception, Result, ok, err, api_error, type_error, ◌>>=◌}
use taskpilot_assessment.Config.{Settings}

unfoldable pub compare_digest : String → String → Result Bool
compare_digest a b = if is_ascii a && is_ascii b then ok (a == b) else err type_error

abbrev pub unauthorized : Exception
unauthorized = api_error 401 "unauthorized" "Missing or invalid API key."

abbrev pub admit : Bool → Result (Unit {0})
admit Bool.true = ok tt
admit Bool.false = err unauthorized

unfoldable pub require_api_key : Settings → Option String → Result (Unit {0})
unfolding compare_digest
require_api_key s none = err unauthorized
require_api_key s (some provided) =
    if is_empty provided then err unauthorized else compare_digest provided s.api_key >>= admit
