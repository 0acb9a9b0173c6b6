-- ===== src/Text/Laws.antt =====
-- What trimming and lowering do to a text, and when they leave it alone.
use chatster.Prelude.{
  Bool, Bool-cases, [], all, and-split, arith, false, inl, inr, is_nil, refl, true, ℕ, ◌&&◌, ◌==◌,
  ◌||◌, ◌∷◌, ◌≡◌, ◌≤◌, nat_eq, list_eq,
}
use chatster.Text.{
  Text, Unicode, is_digit, is_lower, is_space, lower_rune, to_lower, trim_left, trim_right,
  trim_space,
}

-- The runes of canonical names: lower-case letters, digits, `_` and `-`.
unfoldable pub is_token_rune : ℕ → Bool
unfolding is_lower is_digit
is_token_rune c = is_lower c || is_digit c || c == b'_' || c == b'-'

pub printable-not-space : (c : ℕ) → 33 ≤ c → c ≤ 126 → is_space c ≡ false
unfolding is_space
printable-not-space c lo hi = ground arith

pub token_rune-bounds : (c : ℕ) → is_token_rune c ≡ true → (45 ≤ c) × (c ≤ 122)
unfolding is_token_rune
token_rune-bounds c h = ground arith

pub token_rune-not-space : (c : ℕ) → is_token_rune c ≡ true → is_space c ≡ false
token_rune-not-space c h =
    let b = token_rune-bounds c h in printable-not-space c (omega arith) (omega arith)

pub lower_rune-token : ⦃u : Unicode⦄ (c : ℕ) → is_token_rune c ≡ true → lower_rune c ≡ c
unfolding lower_rune is_token_rune
lower_rune-token c h = ground arith

-- A text with no space at all is trimmed already.
pub trim_left_id : (s : Text) → all is_token_rune s ≡ true → trim_left s ≡ s
unfolding trim_left all
trim_left_id [] h = refl
trim_left_id (c ∷ s) h = rw (token_rune-not-space c (and-split _ _ h).0)

pub trim_right_id : (s : Text) → all is_token_rune s ≡ true → trim_right s ≡ s
unfolding trim_right all
trim_right_id [] h = refl
trim_right_id (c ∷ s) h = ground (arith, trim_right_id s, token_rune-not-space c)

pub trim_space-token : (s : Text) → all is_token_rune s ≡ true → trim_space s ≡ s
unfolding trim_space
trim_space-token s h = rw (trim_left_id s h) (trim_right_id s h)

pub to_lower-token : ⦃u : Unicode⦄ (s : Text) → all is_token_rune s ≡ true → to_lower s ≡ s
unfolding all
to_lower-token [] h = refl
to_lower-token (c ∷ s) h = ground (arith, lower_rune-token c, to_lower-token s)

-- Trimming from the right twice is trimming once, and so for the whole.
trim_right_idem : (s : Text) → trim_right (trim_right s) ≡ trim_right s
unfolding trim_right
trim_right_idem [] = refl
trim_right_idem (c ∷ s) = elim (Bool-cases (is_nil (trim_right s) && is_space c)) [
  | inl e ↦ rw e
  | inr e ↦ rw e (rw (trim_right_idem s, e))
]

StartsClean : Text → Type 0
StartsClean [] = Unit
StartsClean (c ∷ s) = is_space c ≡ false

trim_left_clean : (s : Text) → StartsClean (trim_left s)
unfolding trim_left StartsClean
trim_left_clean [] = tt
trim_left_clean (c ∷ s) = elim (Bool-cases (is_space c)) [
  | inl e ↦ rw e (trim_left_clean s)
  | inr e ↦ rw e e
]

clean-trim_left : (s : Text) → StartsClean s → trim_left s ≡ s
unfolding trim_left StartsClean
clean-trim_left [] h = refl
clean-trim_left (c ∷ s) h = rw h

trim_right_clean : (s : Text) → StartsClean s → StartsClean (trim_right s)
unfolding trim_right StartsClean
trim_right_clean [] h = tt
trim_right_clean (c ∷ s) h = elim (Bool-cases (is_nil (trim_right s))) [
  | inl e ↦ rw (e, h) h
  | inr e ↦ rw e h
]

pub trim_space_idem : (s : Text) → trim_space (trim_space s) ≡ trim_space s
unfolding trim_space
trim_space_idem s =
    rw
      (clean-trim_left (trim_right (trim_left s))
        (trim_right_clean (trim_left s) (trim_left_clean s)))
      (trim_right_idem (trim_left s))
