-- ===== src/Config/Origins.antt =====
-- The lists that a variable holds between commas.
use chatster.Prelude.{
  All, Bool-cases, List, [], ap, arith, contains, eq_refl, false, if-elim, if◌then◌else◌, inl, inr,
  is_nil, keep, map, ne_nil_of_is_nil, not, or-false, refl, subst, ℕ, ◌&&◌, ◌++◌, ◌==◌, ◌∙◌, ◌∷◌,
  ◌≡◌, ◌≢◌, nat_eq, list_eq,
}
use chatster.Text.{Text, is_space, split, trim_left, trim_right, trim_space}
use chatster.Text.Laws.{trim_space_idem}
use chatster.Config.{split_csv, trimmed_parts}

-- An entry of such a list.
pub record IsEntry (x : Text) : Type 0 where
  pub trimmed : trim_space x ≡ x
  pub given : x ≢ []
  pub one : contains x b',' ≡ false

-- Entries written with commas between them.
abbrev pub join_comma : List Text → Text
join_comma [] = []
join_comma (x ∷ []) = x
join_comma (x ∷ y ∷ ys) = x ++ b',' ∷ join_comma (y ∷ ys)

trim_left-contains : (s : Text) (c : ℕ) → contains s c ≡ false → contains (trim_left s) c ≡ false
unfolding trim_left contains
trim_left-contains [] c h = h
trim_left-contains (x ∷ s) c h = ground (arith, trim_left-contains s c)

trim_right-contains : (s : Text) (c : ℕ) → contains s c ≡ false → contains (trim_right s) c ≡ false
unfolding trim_right contains
trim_right-contains [] c h = h
trim_right-contains (x ∷ s) c h =
    let (head, rest) = or-false (x == c) (contains s c) h in
    elim (Bool-cases (is_nil (trim_right s) && is_space x)) [
      | inl e ↦ rw e refl
      | inr e ↦ rw (e, contains, head) (trim_right-contains s c rest)
    ]

trim_space-contains : (s : Text) (c : ℕ) → contains s c ≡ false → contains (trim_space s) c ≡ false
unfolding trim_space
trim_space-contains s c h = trim_right-contains (trim_left s) c (trim_left-contains s c h)

abbrev pub HasNo : ℕ → Text → Type 0
HasNo c s = contains s c ≡ false

split-cons :
    (sep c : ℕ) (s w : Text) (ws : List Text)
    → split sep s ≡ w ∷ ws
    → split sep (c ∷ s) ≡ (if c == sep then [] ∷ w ∷ ws else (c ∷ w) ∷ ws)
unfolding split
split-cons sep c s w ws e = rw (split, e) refl

-- The first part of a split text, and the others.
split-given : (sep : ℕ) (s : Text) → (w : Text) × (ws : List Text) × (split sep s ≡ w ∷ ws)
unfolding split
split-given sep [] = ([], [], refl)
split-given sep (c ∷ s) =
    let (w, ws, e) = split-given sep s in
    elim (Bool-cases (c == sep)) [
      | inl k ↦ ([], w ∷ ws, split-cons sep c s w ws e ∙ rw k refl)
      | inr k ↦ (c ∷ w, ws, split-cons sep c s w ws e ∙ rw k refl)
    ]

split-HasNo : (sep : ℕ) (s : Text) → All (HasNo sep) (split sep s)
unfolding split contains
split-HasNo sep [] = (refl, tt)
split-HasNo sep (c ∷ s) =
    let (w, ws, e) = split-given sep s in
    let rest = subst (All (HasNo sep)) e (split-HasNo sep s) in
    rw (split-cons sep c s w ws e) (elim (Bool-cases (c == sep)) [
      | inl k ↦ rw k (refl, rest)
      | inr k ↦ rw (k, contains, k) rest
    ])

split-last : (sep : ℕ) (a : Text) → HasNo sep a → split sep a ≡ a ∷ []
unfolding split contains
split-last sep [] h = refl
split-last sep (c ∷ a) h =
    let (head, rest) = or-false (c == sep) (contains a sep) h in
    split-cons sep c a a [] (split-last sep a rest) ∙ rw head refl

split-append : (sep : ℕ) (a s : Text) → HasNo sep a → split sep (a ++ sep ∷ s) ≡ a ∷ split sep s
unfolding split contains
split-append sep [] s h =
    let (w, ws, e) = split-given sep s in split-cons sep sep s w ws e ∙ rw (eq_refl sep, e) refl
split-append sep (c ∷ a) s h =
    let (head, rest) = or-false (c == sep) (contains a sep) h in
    split-cons sep c (a ++ sep ∷ s) a (split sep s) (split-append sep a s rest) ∙ rw head refl

trimmed_parts-IsEntry : (ps : List Text) → All (HasNo b',') ps → All IsEntry (trimmed_parts ps)
unfolding trimmed_parts
trimmed_parts-IsEntry [] h = tt
trimmed_parts-IsEntry (p ∷ ps) h = elim (Bool-cases (is_nil (trim_space p))) [
  | inl e ↦ rw (e, trimmed_parts) (trimmed_parts-IsEntry ps h.1)
  | inr e ↦
      rw (e, trimmed_parts)
        (
          record {
            trimmed = trim_space_idem p;
            given = ne_nil_of_is_nil (trim_space p) e;
            one = trim_space-contains p b',' h.0;
          },
          trimmed_parts-IsEntry ps h.1,
        )
]

-- What a variable holds between its commas is a list of entries.
pub split_csv-IsEntry : (s : Text) → All IsEntry (split_csv s)
unfolding split_csv
split_csv-IsEntry s =
    if-elim (All IsEntry) (is_nil s) (λ e. tt)
      (λ e. trimmed_parts-IsEntry (split b',' s) (split-HasNo b',' s))

split-join :
    (x : Text) (xs : List Text)
    → All (HasNo b',') (x ∷ xs)
    → split b',' (join_comma (x ∷ xs)) ≡ x ∷ xs
split-join x [] h = split-last b',' x h.0
split-join x (y ∷ ys) h =
    split-append b',' x (join_comma (y ∷ ys)) h.0 ∙ ap (◌∷◌ x) (split-join y ys h.1)

-- What stands between commas, without the white space around it, and without what is blank.
abbrev pub given_entries : List Text → List Text
given_entries xs = keep (λ x. not (is_nil x)) (map trim_space xs)

trimmed_parts-given : (xs : List Text) → trimmed_parts xs ≡ given_entries xs
unfolding trimmed_parts keep
trimmed_parts-given [] = refl
trimmed_parts-given (x ∷ xs) = elim (Bool-cases (is_nil (trim_space x))) [
  | inl e ↦ rw (e, trimmed_parts) (trimmed_parts-given xs)
  | inr e ↦ rw (e, trimmed_parts) (ap (◌∷◌ (trim_space x)) (trimmed_parts-given xs))
]

split_csv-parts : (s : Text) → split_csv s ≡ trimmed_parts (split b',' s)
unfolding split_csv trimmed_parts split trim_space trim_left trim_right
split_csv-parts [] = refl
split_csv-parts (c ∷ s) = refl

trimmed_parts-blank : trimmed_parts (split b',' []) ≡ given_entries []
unfolding trimmed_parts split keep trim_space trim_left trim_right
trimmed_parts-blank = refl

-- Texts without commas that are written with commas between them, whatever white space surrounds
-- them and however many are blank, are read as the trimmed texts that are not blank, in their order,
-- and each of these is an entry: trimmed, not empty and without a comma.
pub split_csv-join :
    (xs : List Text)
    → All (HasNo b',') xs
    → (split_csv (join_comma xs) ≡ given_entries xs) × All IsEntry (split_csv (join_comma xs))
split_csv-join [] h = (split_csv-parts [] ∙ trimmed_parts-blank, split_csv-IsEntry [])
split_csv-join (x ∷ xs) h = (
  split_csv-parts (join_comma (x ∷ xs))
      ∙ ap trimmed_parts (split-join x xs h)
      ∙ trimmed_parts-given (x ∷ xs),
  split_csv-IsEntry (join_comma (x ∷ xs)),
)
