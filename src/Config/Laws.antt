-- ===== src/Config/Laws.antt =====
-- The allowed origins of app/config.py.
use taskpilot_assessment.Prelude.{
  true, not, ◌≡◌, refl, List, [], ◌∷◌, String, All, arith, is_empty, starts_bare, ends_bare, strip,
  strip_lem, split,
}
use taskpilot_assessment.Config.{Settings, origins, cors_origins}

-- A text without white space at its ends, and not empty.
abbrev pub IsBare : String → Type 0
IsBare o = (starts_bare o ≡ true) × (ends_bare o ≡ true) × (not (is_empty o) ≡ true)

All-origins : (parts : List String) → All IsBare (origins parts)
All-origins [] = tt
All-origins (p ∷ parts) = ground (arith, strip_lem p, All-origins parts)

-- No allowed origin is empty or has white space at its ends.
pub cors_origins-IsBare : (s : Settings) → All IsBare (cors_origins s)
unfolding cors_origins
cors_origins-IsBare s = All-origins (split 44 s.cors_allow_origins)

no_origins : (s : Settings) → s.cors_allow_origins ≡ "" → cors_origins s ≡ []
unfolding cors_origins split strip
no_origins s h = rw h refl

two_origins :
    origins (split 44 " https://a.example ,, https://b.example")
    ≡ "https://a.example" ∷ "https://b.example" ∷ []
unfolding split strip
two_origins = refl
