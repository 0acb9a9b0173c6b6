-- ===== src/Text/Append.antt =====
-- Cutting, stripping and measuring texts that are put together.
use chatster.Prelude.{
  Bool-cases, [], all, and-split, arith, contains, eq_refl, eq→≡, false, inl, inr, refl, some,
  subst, true, ℕ, ◌++◌, ◌+◌, ◌==◌, ◌∷◌, ◌≡◌, ◌≢◌, nat_eq, list_eq,
}
use chatster.Text.{Text, byte_len, cut, strip_prefix}
use chatster.Text.Laws.{is_token_rune}

pub cut-append :
    (sep : ℕ) (a s : Text) → contains a sep ≡ false → cut sep (a ++ sep ∷ s) ≡ some (a, s)
unfolding cut contains
cut-append sep [] s h = rw (eq_refl sep, cut) refl
cut-append sep (c ∷ a) s h = elim (Bool-cases (c == sep)) [
  | inl e ↦ cc (rw e at h)
  | inr e ↦ rw (e, cut, cut-append sep a s (rw e at h)) refl
]

pub strip_prefix-append : (p s : Text) → strip_prefix p (p ++ s) ≡ some s
unfolding strip_prefix
strip_prefix-append [] s = refl
strip_prefix-append (c ∷ p) s = rw (eq_refl c, strip_prefix-append p s)

pub byte_len-append : (s t : Text) → byte_len (s ++ t) ≡ byte_len s + byte_len t
unfolding byte_len
byte_len-append [] t = omega arith
byte_len-append (c ∷ s) t = omega (arith, byte_len-append s t)

pub append_ne_nil : (s t : Text) → s ≢ [] → s ++ t ≢ []
append_ne_nil [] t n e = n refl
append_ne_nil (c ∷ s) t n e = cc

-- A token has no rune outside its alphabet.
pub contains-token :
    (s : Text) (c : ℕ) → is_token_rune c ≡ false → all is_token_rune s ≡ true → contains s c ≡ false
unfolding contains all
contains-token [] c h a = refl
contains-token (x ∷ s) c h a =
    let p = and-split (is_token_rune x) (all is_token_rune s) a in
    elim (Bool-cases (x == c)) [
      | inl e ↦ cc (subst (λ y. is_token_rune y ≡ true) (eq→≡ x c e) p.0, h)
      | inr e ↦ rw e (contains-token s c h p.1)
    ]
