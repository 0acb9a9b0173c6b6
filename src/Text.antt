-- ===== src/Text.antt =====
-- Go strings as the backend uses them. A string is the list of its code points; `len` counts the
-- bytes of its UTF-8 form and `utf8.RuneCountInString` its code points. The parts of the packages
-- `strings` and `unicode` that the backend calls are written out here; the Unicode case tables
-- beyond ASCII are a parameter.
pub mod Laws
pub mod Append
pub mod Numbers
use Prim.Native.Char.{code}
use Prim.Native.String
use chatster.Prelude.{
  Bool, List, Option, String, [], any, false, if◌then◌else◌, is_nil, leb, ltb, map, none, some,
  true, ℕ, ◌%◌, ◌&&◌, ◌+◌, ◌-◌, ◌/◌, ◌==◌, ◌||◌, ◌∷◌, nat_eq, list_eq,
}

abbrev pub Text : Type 0
Text = List ℕ

abbrev pub codes : String → Text
codes String.[] = []
codes (String.◌∷◌ c s) = code c ∷ codes s

-- What the case tables of package `unicode` say of a code point from 128 on: its lower case, and a
-- representative of its case-folding orbit.
pub record Unicode : Type 0 where
  pub lower_beyond : ℕ → ℕ
  pub fold_beyond : ℕ → ℕ

abbrev pub in_range : ℕ → ℕ → ℕ → Bool
in_range lo hi c = leb lo c && leb c hi

-- `unicode.IsSpace`
unfoldable pub is_space : ℕ → Bool
is_space c =
    in_range 9 13 c
    || c == 32
    || c == 0x85
    || c == 0xa0
    || c == 0x1680
    || in_range 0x2000 0x200a c
    || in_range 0x2028 0x2029 c
    || c == 0x202f
    || c == 0x205f
    || c == 0x3000

unfoldable pub trim_left : Text → Text
trim_left [] = []
trim_left (c ∷ s) = let rest = trim_left s in if is_space c then rest else c ∷ s

unfoldable pub trim_right : Text → Text
trim_right [] = []
trim_right (c ∷ s) = let rest = trim_right s in if is_nil rest && is_space c then [] else c ∷ rest

-- `strings.TrimSpace`
unfoldable pub trim_space : Text → Text
trim_space s = trim_right (trim_left s)

unfoldable pub is_lower : ℕ → Bool
is_lower c = in_range b'a' b'z' c

unfoldable pub is_upper : ℕ → Bool
is_upper c = in_range b'A' b'Z' c

unfoldable pub is_digit : ℕ → Bool
is_digit c = in_range b'0' b'9' c

module _ ⦃u : Unicode⦄ where
  unfoldable pub lower_rune : ℕ → ℕ
  unfolding is_upper
  lower_rune c = if ltb c 128 then (if is_upper c then c + 32 else c) else u.lower_beyond c

  unfoldable pub fold_rune : ℕ → ℕ
  unfolding is_upper
  fold_rune c = if ltb c 128 then (if is_upper c then c + 32 else c) else u.fold_beyond c

  -- `strings.ToLower`
  abbrev pub to_lower : Text → Text
  to_lower = map lower_rune

  -- `strings.EqualFold`
  unfoldable pub equal_fold : Text → Text → Bool
  equal_fold s t = map fold_rune s == map fold_rune t

-- The bytes of a code point in UTF-8.
unfoldable pub rune_len : ℕ → ℕ
rune_len c = if ltb c 0x80 then 1 else if ltb c 0x800 then 2 else if ltb c 0x10000 then 3 else 4

-- `len(s)`
unfoldable pub byte_len : Text → ℕ
unfolding rune_len
byte_len [] = 0
byte_len (c ∷ s) = rune_len c + byte_len s

-- Letters, digits, `.`, `_`, `:` and `-`: the runes of user identifiers.
unfoldable pub is_identifier_rune : ℕ → Bool
unfolding is_lower is_upper is_digit
is_identifier_rune c =
    is_lower c || is_upper c || is_digit c || c == b'.' || c == b'_' || c == b':' || c == b'-'

-- What `hex.DecodeString` accepts, besides an even length.
unfoldable pub is_hex : ℕ → Bool
unfolding is_digit
is_hex c = is_digit c || in_range b'a' b'f' c || in_range b'A' b'F' c

-- The digits of `hex.EncodeToString`.
unfoldable pub hex_digit : ℕ → ℕ
hex_digit n = if ltb n 10 then b'0' + n else b'a' + (n - 10)

-- `hex.EncodeToString`
unfoldable pub hex_encode : List ℕ → Text
hex_encode [] = []
hex_encode (x ∷ xs) = hex_digit (x / 16) ∷ hex_digit (x % 16) ∷ hex_encode xs

-- `strings.ContainsAny(s, " \t\r\n")`
unfoldable pub has_blank : Text → Bool
has_blank s = any (λ c. c == 32 || c == 9 || c == 13 || c == 10) s

-- `strings.Cut` at one code point
unfoldable pub cut : ℕ → Text → Option (Text × Text)
cut sep [] = none
cut sep (c ∷ s) = elim (c == sep) [
  | true ↦ some ([], s)
  | false ↦ elim (cut sep s) [ none ↦ none | some (a, b) ↦ some (c ∷ a, b) ]
]

-- `strings.HasPrefix`, with `strings.TrimPrefix`: the rest behind the prefix
unfoldable pub strip_prefix : Text → Text → Option Text
strip_prefix [] s = some s
strip_prefix (p ∷ ps) [] = none
strip_prefix (p ∷ ps) (c ∷ s) = let rest = strip_prefix ps s in if p == c then rest else none

-- `strings.Split` at one code point
unfoldable pub split : ℕ → Text → List Text
split sep [] = [] ∷ []
split sep (c ∷ s) = elim (split sep s) [
  | [] ↦ []
  | w ∷ ws ↦ if c == sep then [] ∷ w ∷ ws else (c ∷ w) ∷ ws
]
