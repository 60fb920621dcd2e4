-- ===== src/Json.antt =====
-- JSON values as Python holds them after parsing: the `payload` column of app/models.py and the
-- `dict[str, Any]` of app/schemas.py. A dict is its items in order, with distinct keys.
use Prim.Native.Char.{code}
use taskpilot_assessment.Prelude.{
  ℕ, suc, ◌≡◌, refl, ◌+◌, ◌-◌, String, decimal, length_text, ltb, leb, nat_eq, ◌||◌, ◌&&◌, Bool,
  Option, none, some, ◌==◌, string_eq, if◌then◌else◌,
}

mutual
  pub data Json : Type 0 where
    null : Json
    bool : Bool → Json
    -- a number that is not negative; a negative one; a float, by the text that `json.dumps` prints
    int : ℕ → Json
    negative : ℕ → Json
    float : String → Json
    str : String → Json
    arr : Items → Json
    obj : Fields → Json

  pub data Items : Type 0 where
    nil : Items
    cons : Json → Items → Items

  pub data Fields : Type 0 where
    end : Fields
    field : String → Json → Fields → Fields

-- `d.get(key)`
unfoldable pub get : String → Fields → Option Json
get key end = none
get key (field k v fs) = if k == key then some v else get key fs

-- `v is True`
abbrev pub is_true : Option Json → Bool
is_true none = Bool.false
is_true (some (bool b)) = b
is_true (some _) = Bool.false

-- How many characters `json.dumps` prints for a code point in a string: it escapes what is not ASCII.
abbrev escaped_length : ℕ → ℕ
escaped_length c =
    if c == 34 || c == 92 || leb 8 c && leb c 10 || leb 12 c && leb c 13
    then 2
    else if ltb c 32 || ltb 126 c
    then (if ltb c 65536 then 6 else 12)
    else 1

abbrev text_length : String → ℕ
text_length String.[] = 0
text_length (String.◌∷◌ c s) = escaped_length (code c) + text_length s

-- The length of what `json.dumps` prints with an item separator of `item` characters and a key
-- separator of `key`; it is ASCII, so a character is a byte. Each member is counted with a separator, and
-- one is taken off.
unfoldable mutual
  pub printed_size : (item key : ℕ) → Json → ℕ
  printed_size item key null = 4
  printed_size item key (bool b) = if b then 4 else 5
  printed_size item key (int n) = length_text (decimal n)
  printed_size item key (negative n) = suc (length_text (decimal n))
  printed_size item key (float s) = length_text s
  printed_size item key (str s) = 2 + text_length s
  printed_size item key (arr js) = 2 + (items_size item key js - item)
  printed_size item key (obj fs) = 2 + (fields_size item key fs - item)

  items_size : (item key : ℕ) → Items → ℕ
  items_size item key nil = 0
  items_size item key (cons j js) = printed_size item key j + item + items_size item key js

  fields_size : (item key : ℕ) → Fields → ℕ
  fields_size item key end = 0
  fields_size item key (field k v fs) =
      2 + text_length k + key + printed_size item key v + item + fields_size item key fs

-- `len(json.dumps(value, separators=(",", ":")).encode("utf-8"))`
unfoldable pub dumps_size : Json → ℕ
unfolding printed_size
dumps_size j = printed_size 1 1 j

-- `len(json.dumps(value).encode())`, with the separators ", " and ": ".
unfoldable pub dumps_size_spaced : Json → ℕ
unfolding printed_size
dumps_size_spaced j = printed_size 2 2 j

-- {"a":[1,true,"é"],"b":{}}, with é escaped.
printed :
    dumps_size (
      obj (
        field "a"
          (arr (cons (int 1) (cons (bool Bool.true) (cons (str "é") nil))))
          (field "b" (obj end) end)))
    ≡ 30
unfolding dumps_size decimal
printed = refl

printed_spaced : dumps_size_spaced (obj (field "a" (arr (cons (int 1) (cons null nil))) end)) ≡ 16
unfolding dumps_size_spaced decimal
printed_spaced = refl
