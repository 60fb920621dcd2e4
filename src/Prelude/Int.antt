-- ===== src/Prelude/Int.antt =====
-- Python's `int(s)` for a text of a header, whose code points are below 256: white space around it, a
-- sign, and digits with single underscores between them, at most 4300 of them. `none` is ValueError.
use Prim.Native.Nat.{ℕ, suc, ◌+◌, ◌-◌, ◌*◌}
use Prim.Native.Char.{code}
use Prim.Native.String.{String}
use mathlib.Core.Path.{◌≡◌, refl}
use mathlib.Core.Bool.{Bool, true, false, ◌&&◌}
use mathlib.Core.Option.{Option, none, some, map}
use taskpilot_assessment.Prelude.Tests.{ltb, leb, nat_beq, if◌then◌else◌}
use taskpilot_assessment.Prelude.Strip.{strip}

abbrev is_digit : ℕ → Bool
is_digit n = leb 48 n && leb n 57

abbrev digit_count : String → ℕ
digit_count String.[] = 0
digit_count (String.◌∷◌ c s) =
    let rest = digit_count s in if is_digit (code c) then suc rest else rest

-- `last` tells whether the code point before was a digit.
abbrev digits : (last : Bool) → (value : ℕ) → String → Option ℕ
digits last n String.[] = if last then some n else none
digits last n (String.◌∷◌ c s) = elim (is_digit (code c)) [
  | true ↦ digits true (n * 10 + (code c - 48)) s
  | false ↦ elim (last && nat_beq (code c) 95) [ true ↦ digits false n s | false ↦ none ]
]

-- The sign, true where it is a minus, and the magnitude.
abbrev signed : String → Option (Bool × ℕ)
signed String.[] = none
signed (String.◌∷◌ c s) =
    if nat_beq (code c) 45
    then map (λ n. (true, n)) (digits false 0 s)
    else if nat_beq (code c) 43
    then map (λ n. (false, n)) (digits false 0 s)
    else map (λ n. (false, n)) (digits false 0 (String.◌∷◌ c s))

unfoldable pub parse_int : String → Option (Bool × ℕ)
unfolding strip
parse_int s = if ltb 4300 (digit_count s) then none else signed (strip s)

parse_int_runs :
    (parse_int " 1_048_577" ≡ some (false, 1048577))
    × (parse_int "-12" ≡ some (true, 12))
    × (parse_int "1__0" ≡ none)
    × (parse_int "ten" ≡ none)
    × (parse_int "" ≡ none)
unfolding parse_int
parse_int_runs = (refl, refl, refl, refl, refl)
