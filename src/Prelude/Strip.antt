-- ===== src/Prelude/Strip.antt =====
-- Python's `str.strip`, `str.split`, `str.lower` and `str.isascii`.
use Prim.Native.Nat.{ℕ, ◌≤◌}
use Prim.Native.Char.{code}
use Prim.Native.String.{String}
use mathlib.Core.Path.{◌≡◌, refl}
use mathlib.Core.Bool.{Bool, true, false, not, ◌&&◌, ◌||◌}
use mathlib.Core.List.{List, [], ◌∷◌}
use native.Mathlib.Omega.{arith}
use taskpilot_assessment.Prelude.Tests.{ltb, leb, nat_beq, if◌then◌else◌}
use taskpilot_assessment.Prelude.Text.{length_text}

-- The code points between two, both included.
abbrev between : ℕ → ℕ → ℕ → Bool
between a b n = leb a n && leb n b

-- `c.isspace()`: the white space of Unicode.
unfoldable pub is_space : ℕ → Bool
is_space n =
    between 9 13 n
    || between 28 32 n
    || nat_beq n 133
    || nat_beq n 160
    || nat_beq n 5760
    || between 8192 8202 n
    || between 8232 8233 n
    || nat_beq n 8239
    || nat_beq n 8287
    || nat_beq n 12288

-- `not s`
abbrev pub is_empty : String → Bool
is_empty String.[] = true
is_empty (String.◌∷◌ c s) = false

unfoldable pub lstrip : String → String
lstrip String.[] = String.[]
lstrip (String.◌∷◌ c s) = let rest = lstrip s in if is_space (code c) then rest else String.◌∷◌ c s

unfoldable pub rstrip : String → String
rstrip String.[] = String.[]
rstrip (String.◌∷◌ c s) =
    let rest = rstrip s in
    if is_empty rest && is_space (code c) then String.[] else String.◌∷◌ c rest

unfoldable pub strip : String → String
unfolding lstrip rstrip is_space
strip s = rstrip (lstrip s)

-- `s.split(sep)` for a separator of one code point, given by its number: the first part, and the
-- parts after it.
split_from : ℕ → String → String × List String
split_from sep String.[] = (String.[], [])
split_from sep (String.◌∷◌ c s) =
    let (part, parts) = split_from sep s in
    if nat_beq (code c) sep then (String.[], part ∷ parts) else (String.◌∷◌ c part, parts)

unfoldable pub split : ℕ → String → List String
unfolding split_from
split sep s = let (part, parts) = split_from sep s in part ∷ parts

-- `s.isascii()`
abbrev pub is_ascii : String → Bool
is_ascii String.[] = true
is_ascii (String.◌∷◌ c s) = ltb (code c) 128 && is_ascii s

-- Some code point is not white space.
abbrev pub has_text : String → Bool
has_text String.[] = false
has_text (String.◌∷◌ c s) = not (is_space (code c)) || has_text s

-- The first code point, if there is one, is not white space.
abbrev pub starts_bare : String → Bool
starts_bare String.[] = true
starts_bare (String.◌∷◌ c s) = not (is_space (code c))

-- The same of the last one.
abbrev pub ends_bare : String → Bool
ends_bare String.[] = true
ends_bare (String.◌∷◌ c s) = if is_empty s then not (is_space (code c)) else ends_bare s

lstrip-starts_bare : (s : String) → starts_bare (lstrip s) ≡ true
unfolding lstrip
lstrip-starts_bare String.[] = refl
lstrip-starts_bare (String.◌∷◌ c s) = ground (arith, lstrip-starts_bare s)

lstrip-length : (s : String) → length_text (lstrip s) ≤ length_text s
unfolding lstrip
lstrip-length String.[] = omega arith
lstrip-length (String.◌∷◌ c s) = ground (arith, lstrip-length s)

lstrip-has_text : (s : String) → has_text (lstrip s) ≡ has_text s
unfolding lstrip
lstrip-has_text String.[] = refl
lstrip-has_text (String.◌∷◌ c s) = ground (arith, lstrip-has_text s)

rstrip-is_empty : (s : String) → is_empty (rstrip s) ≡ not (has_text s)
unfolding rstrip
rstrip-is_empty String.[] = refl
rstrip-is_empty (String.◌∷◌ c s) = ground (arith, rstrip-is_empty s)

rstrip-length : (s : String) → length_text (rstrip s) ≤ length_text s
unfolding rstrip
rstrip-length String.[] = omega arith
rstrip-length (String.◌∷◌ c s) = ground (arith, rstrip-length s)

rstrip-starts_bare : (s : String) → starts_bare s ≡ true → starts_bare (rstrip s) ≡ true
unfolding rstrip
rstrip-starts_bare String.[] h = refl
rstrip-starts_bare (String.◌∷◌ c s) h = ground (arith, rstrip-is_empty s)

rstrip-ends_bare : (s : String) → ends_bare (rstrip s) ≡ true
unfolding rstrip
rstrip-ends_bare String.[] = refl
rstrip-ends_bare (String.◌∷◌ c s) = ground (arith, rstrip-ends_bare s)

-- What is stripped is no longer, has no white space at its ends, and is empty for white space alone.
pub strip_lem :
    (s : String)
    → (length_text (strip s) ≤ length_text s)
      × (starts_bare (strip s) ≡ true)
      × (ends_bare (strip s) ≡ true)
      × (is_empty (strip s) ≡ not (has_text s))
unfolding strip
strip_lem s = (
  ground (arith, rstrip-length (lstrip s), lstrip-length s),
  rstrip-starts_bare (lstrip s) (lstrip-starts_bare s),
  rstrip-ends_bare (lstrip s),
  ground (arith, rstrip-is_empty (lstrip s), lstrip-has_text s),
)
