-- ===== src/Prelude/Text.antt =====
-- Python's `str`: code points, with slices and lengths counted in code points.
use Prim.Native.Nat.{ℕ, zero, suc, ◌+◌, ◌-◌, ◌/◌, ◌%◌, min}
use Prim.Native.String.{String, slice, ◌++◌}
use Prim.Native.Char.{code}
use mathlib.Core.Bool.{◌&&◌}
use mathlib.Core.Path.{◌≡◌}
use native.Mathlib.Omega.{arith}
use taskpilot_assessment.Prelude.Tests.{ltb, leb, if◌then◌else◌}

-- `len(s)`
abbrev pub length_text : String → ℕ
length_text String.[] = 0
length_text (String.◌∷◌ c s) = suc (length_text s)

-- `s[:n]`
abbrev pub take_text : ℕ → String → String
take_text zero s = String.[]
take_text (suc n) String.[] = String.[]
take_text (suc n) (String.◌∷◌ c s) = String.◌∷◌ c (take_text n s)

pub length_text-take_text :
    (n : ℕ) (s : String) → length_text (take_text n s) ≡ min n (length_text s)
length_text-take_text zero s = omega arith
length_text-take_text (suc n) String.[] = omega arith
length_text-take_text (suc n) (String.◌∷◌ c s) = omega (arith, length_text-take_text n s)

abbrev pub append_text : String → String → String
append_text s t = s ++ t

-- `s.lower()`, of the letters A to Z.
abbrev pub lower_ascii : String → String
lower_ascii String.[] = String.[]
lower_ascii (String.◌∷◌ c s) =
    let rest = lower_ascii s in
    if leb 65 (code c) && leb (code c) 90
    then append_text (slice "abcdefghijklmnopqrstuvwxyz" (code c - 65) (code c - 64)) rest
    else String.◌∷◌ c rest

-- `s.upper()`, of the letters a to z.
abbrev pub upper_ascii : String → String
upper_ascii String.[] = String.[]
upper_ascii (String.◌∷◌ c s) =
    let rest = upper_ascii s in
    if leb 97 (code c) && leb (code c) 122
    then append_text (slice "ABCDEFGHIJKLMNOPQRSTUVWXYZ" (code c - 97) (code c - 96)) rest
    else String.◌∷◌ c rest

digit : ℕ → String
digit d = slice "0123456789" d (d + 1)

decimal_from : ℕ → ℕ → String
decimal_from zero n = String.[]
decimal_from (suc fuel) n =
    let front = decimal_from fuel (n / 10) in
    if ltb n 10 then digit n else append_text front (digit (n % 10))

-- `str(n)`: a number has fewer digits than itself and one.
unfoldable pub decimal : ℕ → String
unfolding decimal_from digit
decimal n = decimal_from (n + 1) n
