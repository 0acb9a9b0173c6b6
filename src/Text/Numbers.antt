-- ===== src/Text/Numbers.antt =====
-- `strconv.Atoi`, `strconv.ParseInt` and `strconv.Itoa` as the backend uses them.
pub mod Digits
use chatster.Prelude.Int.{negsuc, pos, ℤ}
use chatster.Prelude.{
  Bool, Option, [], false, if◌then◌else◌, is_nil, ltb, none, reverse, some, suc, true, zero, ℕ, ◌%◌,
  ◌*◌, ◌+◌, ◌-◌, ◌/◌, ◌==◌, ◌^◌, ◌∷◌, nat_eq, list_eq,
}
use chatster.Text.{Text, is_digit}

-- `strconv.Atoi`, on 64 bits.
unfoldable pub digits_value : ℕ → Text → Option ℕ
digits_value n [] = some n
digits_value n (c ∷ s) =
    let rest = digits_value (n * 10 + (c - b'0')) s in if is_digit c then rest else none

unfoldable pub atoi_unsigned : Text → Option ℕ
atoi_unsigned s = if is_nil s then none else digits_value 0 s

abbrev in_int64 : Bool → ℕ → Option ℤ
in_int64 true n =
    if ltb (2 ^ 63) n then none else if n == 0 then some (pos 0) else some (negsuc (n - 1))
in_int64 false n = if ltb n (2 ^ 63) then some (pos n) else none

abbrev pub signed_value : Bool → Option ℕ → Option ℤ
signed_value minus none = none
signed_value minus (some n) = in_int64 minus n

unfoldable pub atoi : Text → Option ℤ
atoi [] = none
atoi (c ∷ s) =
    if c == b'-'
    then signed_value true (atoi_unsigned s)
    else if c == b'+'
    then signed_value false (atoi_unsigned s)
    else signed_value false (atoi_unsigned (c ∷ s))

-- `strconv.ParseInt(s, 10, 32)`
unfoldable pub parse_int32 : Text → Option ℤ
parse_int32 s = elim (atoi s) [
  | none ↦ none
  | some (pos n) ↦ if ltb n (2 ^ 31) then some (pos n) else none
  | some (negsuc n) ↦ if ltb n (2 ^ 31) then some (negsuc n) else none
]

-- The digits of a number, the last first, on fuel that bounds the number.
unfoldable pub digits_reversed : ℕ → ℕ → Text
digits_reversed zero n = []
digits_reversed (suc fuel) n =
    let rest = digits_reversed fuel (n / 10) in
    if ltb n 10 then (b'0' + n) ∷ [] else (b'0' + n % 10) ∷ rest

-- `strconv.Itoa` of a number that is not below zero
unfoldable pub itoa : ℕ → Text
itoa n = reverse (digits_reversed (suc n) n)
