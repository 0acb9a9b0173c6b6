-- ===== src/Text/Numbers/Digits.antt =====
-- Numbers that are written are read as they were.
use mathlib.Core.List.{reverse-cons}
use chatster.Prelude.Int.{pos, ℤ}
use chatster.Prelude.{
  Bool, Bool-cases, Option, [], ap, arith, false, if-elim, inl, inr, length, length-reverse, ltb,
  ltb_false→le, ltb→lt, none, refl, reverse, some, some-injective, suc, true, zero, ℕ, ◌%◌, ◌*◌,
  ◌++◌, ◌+◌, ◌-◌, ◌/◌, ◌<◌, ◌==◌, ◌^◌, ◌∙◌, ◌∷◌, ◌≡◌, ◌≢◌, nat_eq, list_eq,
}
use chatster.Text.{Text, is_digit}
use chatster.Text.Numbers.{atoi, atoi_unsigned, digits_reversed, digits_value, itoa, signed_value}

value_snoc :
    (k d v : ℕ) (s : Text)
    → is_digit d ≡ true
    → digits_value k s ≡ some v
    → digits_value k (s ++ d ∷ []) ≡ some (v * 10 + (d - b'0'))
unfolding digits_value
value_snoc k d v [] digit h = rw digit (ap (λ x. some (x * 10 + (d - b'0'))) (some-injective k v h))
value_snoc k d v (c ∷ s) digit h = elim (Bool-cases (is_digit c)) [
  | inl e ↦
      rw (e, digits_value)
        (value_snoc (k * 10 + (c - b'0')) d v s digit (rw (e, digits_value) at h))
  | inr e ↦ cc (rw (e, digits_value) at h)
]

digit_rune : (n : ℕ) → n < 10 → is_digit (b'0' + n) ≡ true
unfolding is_digit
digit_rune n h = ground arith

digits_reversed-value :
    (fuel n : ℕ) → n < fuel → digits_value 0 (reverse (digits_reversed fuel n)) ≡ some n
unfolding digits_value digits_reversed
digits_reversed-value zero n h = absurd (omega arith)
digits_reversed-value (suc fuel) n h = elim (Bool-cases (ltb n 10)) [
  | inl e ↦ rw e (rw (digit_rune n (ltb→lt n 10 e)) (ap some (omega arith)))
  | inr e ↦
      let rest = digits_reversed-value fuel (n / 10) (omega (arith, ltb_false→le n 10 e)) in
      let digit = digit_rune (n % 10) (omega arith) in
      rw (e, reverse-cons (b'0' + n % 10) (digits_reversed fuel (n / 10)))
        (value_snoc 0 (b'0' + n % 10) (n / 10) _ digit rest ∙ ap some (omega arith))
]

digit-not-sign : (c : ℕ) → is_digit c ≡ true → ((c == b'-') ≡ false) × ((c == b'+') ≡ false)
unfolding is_digit
digit-not-sign c h = (ground arith, ground arith)

digits_value-first : (k c n : ℕ) (s : Text) → digits_value k (c ∷ s) ≡ some n → is_digit c ≡ true
unfolding digits_value
digits_value-first k c n s h = elim (Bool-cases (is_digit c)) [
  | inl e ↦ e
  | inr e ↦ cc (rw (e, digits_value) at h)
]

starts_with_digit :
    (s : Text) (n : ℕ) → s ≢ [] → n < 2 ^ 63 → digits_value 0 s ≡ some n → atoi s ≡ some (pos n)
unfolding atoi atoi_unsigned
starts_with_digit [] n g b h = absurd (g refl)
starts_with_digit (c ∷ s) n g b h =
    let (not_minus, not_plus) = digit-not-sign c (digits_value-first 0 c n s h) in
    let fits : ltb n (2 ^ 63) ≡ true = ground arith in rw (not_minus, not_plus, h, fits) refl

digits_reversed-given : (fuel n : ℕ) → digits_reversed (suc fuel) n ≢ []
unfolding digits_reversed
digits_reversed-given fuel n = if-elim (λ (s : Text). s ≢ []) (ltb n 10) (λ e k. cc) (λ e k. cc)

reverse-given : (s : Text) → s ≢ [] → reverse s ≢ []
reverse-given [] g e = g refl
reverse-given (x ∷ s) g e =
    let same = length-reverse (x ∷ s) in
    let none_left : length (reverse (x ∷ s)) ≡ 0 = ap length e in absurd (omega arith)

-- A number that fits in 64 bits and is written in decimal is read as it was.
pub atoi-itoa : (n : ℕ) → n < 2 ^ 63 → atoi (itoa n) ≡ some (pos n)
unfolding itoa
atoi-itoa n h =
    starts_with_digit (itoa n) n (reverse-given _ (digits_reversed-given n n)) h
      (digits_reversed-value (suc n) n (omega arith))

signed_value-fits :
    (minus : Bool) (o : Option ℕ) (n : ℕ) → signed_value minus o ≡ some (pos n) → n < 2 ^ 63
signed_value-fits minus none n h = cc
signed_value-fits true (some m) n h = elim (Bool-cases (ltb (2 ^ 63) m)) [
  | inl e ↦ cc (rw e at h)
  | inr e ↦ elim (Bool-cases (m == 0)) [
    | inl z ↦ let same : 0 ≡ n = cc (rw (e, z) at h) in omega arith
    | inr z ↦ cc (rw (e, z) at h)
  ]
]
signed_value-fits false (some m) n h = elim (Bool-cases (ltb m (2 ^ 63))) [
  | inl e ↦ let same : m ≡ n = cc (rw e at h) in let fits = ltb→lt m (2 ^ 63) e in omega arith
  | inr e ↦ cc (rw e at h)
]

-- What is read fits.
pub atoi_fits : (s : Text) (n : ℕ) → atoi s ≡ some (pos n) → n < 2 ^ 63
unfolding atoi
atoi_fits [] n = λ h. cc
atoi_fits (c ∷ s) n =
    if-elim (λ (v : Option ℤ). v ≡ some (pos n) → n < 2 ^ 63) (c == b'-')
      (λ e. signed_value-fits true (atoi_unsigned s) n)
      (λ e.
        if-elim (λ (v : Option ℤ). v ≡ some (pos n) → n < 2 ^ 63) (c == b'+')
          (λ k. signed_value-fits false (atoi_unsigned s) n)
          (λ k. signed_value-fits false (atoi_unsigned (c ∷ s)) n))
