-- ===== src/Db/Sqlite/Order.antt =====
-- The order that the queries of backend/db/database.go sort by, and where a cursor cuts it.
use mathlib.Core.List.{Perm}
use mathlib.Core.List.Perm
use mathlib.Core.Option.{some-injective}
use chatster.Prelude.{
  All, All-get, Bool, Bool-cases, List, [], arith, drop, false, get_elem?, if◌then◌else◌, inl, inr,
  keep, refl, some, subst, suc, sym, true, zero, ℕ, ◌∷◌, ◌≡◌, ◌≢◌,
}
use chatster.Db.Rows.{Driver, Row}
use chatster.Db.Sqlite.{insert_row, newest_first, older_than}

-- No row has the identifier.
abbrev pub IdFresh : ℕ → List Row → Type 0
IdFresh n rs = All (λ r. r.id ≢ n) rs

abbrev pub IdsDistinct : List Row → Type 0
IdsDistinct [] = Unit
IdsDistinct (r ∷ rs) = IdFresh r.id rs × IdsDistinct rs

module _ ⦃d : Driver⦄ where
  abbrev pub AllOlder : Row → List Row → Type 0
  AllOlder x xs = All (λ y. older_than x y ≡ true) xs

  -- Strictly descending, so newest first.
  abbrev pub Descending : List Row → Type 0
  Descending [] = Unit
  Descending (x ∷ xs) = AllOlder x xs × Descending xs

  older_trans :
      (x y z : Row) → older_than x y ≡ true → older_than y z ≡ true → older_than x z ≡ true
  older_trans x y z h k = ground arith

  older_total : (x y : Row) → x.id ≢ y.id → older_than x y ≡ false → older_than y x ≡ true
  older_total x y n h = ground arith

  older_irrefl : (x : Row) → older_than x x ≡ false
  older_irrefl x = ground arith

  older_asym : (x y : Row) → older_than x y ≡ true → older_than y x ≡ false
  older_asym x y h = ground arith

  AllOlder-trans :
      (x y : Row) (zs : List Row) → older_than x y ≡ true → AllOlder y zs → AllOlder x zs
  AllOlder-trans x y [] h a = tt
  AllOlder-trans x y (z ∷ zs) h a = (older_trans x y z h a.0, AllOlder-trans x y zs h a.1)

  AllOlder-insert :
      (x r : Row) (ys : List Row)
      → older_than x r ≡ true
      → AllOlder x ys
      → AllOlder x (insert_row r ys)
  unfolding insert_row
  AllOlder-insert x r [] h a = (h, tt)
  AllOlder-insert x r (y ∷ ys) h a = elim (Bool-cases (older_than y r)) [
    | inl e ↦ rw e (a.0, AllOlder-insert x r ys h a.1)
    | inr e ↦ rw e (h, a)
  ]

  insert_row-Descending :
      (r : Row) (ys : List Row) → IdFresh r.id ys → Descending ys → Descending (insert_row r ys)
  unfolding insert_row
  insert_row-Descending r [] f s = (tt, tt)
  insert_row-Descending r (y ∷ ys) f s = elim (Bool-cases (older_than y r)) [
    | inl e ↦ rw e (AllOlder-insert y r ys e s.0, insert_row-Descending r ys f.1 s.1)
    | inr e ↦ let k = older_total y r f.0 e in rw e ((k, AllOlder-trans r y ys k s.0), s)
  ]

  insert_row-IdFresh :
      (n : ℕ) (r : Row) (ys : List Row) → r.id ≢ n → IdFresh n ys → IdFresh n (insert_row r ys)
  unfolding insert_row
  insert_row-IdFresh n r [] h f = (h, tt)
  insert_row-IdFresh n r (y ∷ ys) h f = elim (Bool-cases (older_than y r)) [
    | inl e ↦ rw e (f.0, insert_row-IdFresh n r ys h f.1)
    | inr e ↦ rw e (h, f)
  ]

  newest_first-IdFresh : (n : ℕ) (rs : List Row) → IdFresh n rs → IdFresh n (newest_first rs)
  unfolding newest_first
  newest_first-IdFresh n [] f = tt
  newest_first-IdFresh n (r ∷ rs) f =
      insert_row-IdFresh n r (newest_first rs) f.0 (newest_first-IdFresh n rs f.1)

  pub newest_first-Descending : (rs : List Row) → IdsDistinct rs → Descending (newest_first rs)
  unfolding newest_first
  newest_first-Descending [] s = tt
  newest_first-Descending (r ∷ rs) s =
      insert_row-Descending r (newest_first rs) (newest_first-IdFresh r.id rs s.0)
        (newest_first-Descending rs s.1)

  -- Sorting keeps the rows.
  insert_row-perm : (r : Row) (ys : List Row) → Perm (insert_row r ys) (r ∷ ys)
  unfolding insert_row
  insert_row-perm r [] = Perm.refl (r ∷ [])
  insert_row-perm r (y ∷ ys) = elim (Bool-cases (older_than y r)) [
    | inl e ↦ rw e (Perm.trans (Perm.cons y (insert_row-perm r ys)) (Perm.swap r y ys))
    | inr e ↦ rw e (Perm.refl (r ∷ y ∷ ys))
  ]

  pub newest_first-perm : (rs : List Row) → Perm (newest_first rs) rs
  unfolding newest_first
  newest_first-perm [] = Perm.refl []
  newest_first-perm (r ∷ rs) =
      Perm.trans (insert_row-perm r (newest_first rs)) (Perm.cons r (newest_first-perm rs))

  insert_row-front : (r : Row) (ys : List Row) → AllOlder r ys → insert_row r ys ≡ r ∷ ys
  unfolding insert_row
  insert_row-front r [] a = refl
  insert_row-front r (y ∷ ys) a = rw (older_asym r y a.0)

  AllOlder-keep :
      (q : Row → Bool) (x : Row) (ys : List Row) → AllOlder x ys → AllOlder x (keep q ys)
  unfolding keep
  AllOlder-keep q x [] a = tt
  AllOlder-keep q x (y ∷ ys) a = elim (Bool-cases (q y)) [
    | inl e ↦ rw e (a.0, AllOlder-keep q x ys a.1)
    | inr e ↦ rw e (AllOlder-keep q x ys a.1)
  ]

  keep-insert_row :
      (q : Row → Bool) (r : Row) (ys : List Row)
      → IdFresh r.id ys
      → Descending ys
      → keep q (insert_row r ys) ≡ (if q r then insert_row r (keep q ys) else keep q ys)
  unfolding keep insert_row
  keep-insert_row q r [] f s = refl
  keep-insert_row q r (y ∷ ys) f s = elim (Bool-cases (older_than y r)) [
    | inl e ↦ elim (Bool-cases (q y)) [
      | inl k ↦ elim (Bool-cases (q r)) [
        | inl m ↦ rw (e, k, keep-insert_row q r ys f.1 s.1, m, e) refl
        | inr m ↦ rw (e, k, keep-insert_row q r ys f.1 s.1, m) refl
      ]
      | inr k ↦ rw (e, k) (keep-insert_row q r ys f.1 s.1)
    ]
    | inr e ↦
        let h = older_total y r f.0 e in
        elim (Bool-cases (q r)) [
          | inl m ↦
              rw (e, m)
                (sym (
                  insert_row-front r (keep q (y ∷ ys))
                    (AllOlder-keep q r (y ∷ ys) (h, AllOlder-trans r y ys h s.0))))
          | inr m ↦ rw (e, m) refl
        ]
  ]

  -- Filtering before sorting is filtering after it.
  pub newest_first-keep :
      (q : Row → Bool) (rs : List Row)
      → IdsDistinct rs
      → newest_first (keep q rs) ≡ keep q (newest_first rs)
  unfolding newest_first keep
  newest_first-keep q [] s = refl
  newest_first-keep q (r ∷ rs) s = elim (Bool-cases (q r)) [
    | inl e ↦ rw (
      keep-insert_row q r (newest_first rs) (newest_first-IdFresh r.id rs s.0)
          (newest_first-Descending rs s.1),
      e,
      newest_first-keep q rs s.1,
    )
    | inr e ↦ rw (
      keep-insert_row q r (newest_first rs) (newest_first-IdFresh r.id rs s.0)
          (newest_first-Descending rs s.1),
      e,
      newest_first-keep q rs s.1,
    )
  ]

  keep-All : (q : Row → Bool) (ys : List Row) → All (λ y. q y ≡ true) ys → keep q ys ≡ ys
  unfolding keep
  keep-All q [] a = refl
  keep-All q (y ∷ ys) a = rw (a.0, keep-All q ys a.1)

  -- The rows older than the last one of a page are what comes behind the page.
  pub keep-older_than :
      (n : ℕ) (c : Row) (l : List Row)
      → Descending l
      → get_elem? l n ≡ some c
      → keep (older_than c) l ≡ drop (suc n) l
  unfolding keep
  keep-older_than n c [] s h = cc
  keep-older_than zero c (x ∷ xs) s h =
      subst (λ r. keep (older_than r) (x ∷ xs) ≡ xs) (some-injective x c h)
        (rw (older_irrefl x) (keep-All (older_than x) xs s.0))
  keep-older_than (suc n) c (x ∷ xs) s h =
      rw (older_asym x c (All-get (λ y. older_than x y ≡ true) xs n c s.0 h))
        (keep-older_than n c xs s.1 h)
