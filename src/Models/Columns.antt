-- ===== src/Models/Columns.antt =====
-- app/models.py: which values the columns that a client fills can hold. A `String(255)` of PostgreSQL
-- takes 255 characters; no text takes the code point 0; and JSONB takes no such text and, of what
-- `json.dumps` prints, neither NaN nor the infinities.
use Prim.Native.Char.{code}
use taskpilot_assessment.Prelude.{
  String, Bool, true, false, not, ◌&&◌, ◌||◌, Option, none, some, length_text, leb, ◌==◌, nat_eq,
  string_eq,
}
use taskpilot_assessment.Json.{
  Json, null, bool, int, negative, float, str, arr, obj, Items, nil, cons, Fields, end, field,
}
use taskpilot_assessment.Models.{Task}

abbrev pub has_nul : String → Bool
has_nul String.[] = false
has_nul (String.◌∷◌ c s) = code c == 0 || has_nul s

-- What `json.dumps` prints for the floats that are no numbers of JSON.
abbrev pub is_finite : String → Bool
is_finite x = not (x == "NaN" || (x == "Infinity" || x == "-Infinity"))

unfoldable mutual
  pub is_jsonb : Json → Bool
  is_jsonb null = true
  is_jsonb (bool b) = true
  is_jsonb (int n) = true
  is_jsonb (negative n) = true
  is_jsonb (float x) = is_finite x
  is_jsonb (str s) = not (has_nul s)
  is_jsonb (arr js) = are_jsonb js
  is_jsonb (obj fs) = fields_jsonb fs

  are_jsonb : Items → Bool
  are_jsonb nil = true
  are_jsonb (cons j js) = is_jsonb j && are_jsonb js

  fields_jsonb : Fields → Bool
  fields_jsonb end = true
  fields_jsonb (field k v fs) = not (has_nul k) && (is_jsonb v && fields_jsonb fs)

-- A text that is no longer than the column and has no code point 0.
abbrev pub is_varchar : String → Bool
is_varchar s = leb (length_text s) 255 && not (has_nul s)

abbrev pub is_varchar_or_null : Option String → Bool
is_varchar_or_null none = true
is_varchar_or_null (some s) = is_varchar s

-- The columns `title`, `idempotency_key` and `payload`.
unfoldable pub is_storable : Task → Bool
unfolding is_jsonb
is_storable t = is_varchar t.title && (is_varchar_or_null t.idempotency_key && is_jsonb t.payload)
