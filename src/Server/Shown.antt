-- ===== src/Server/Shown.antt =====
-- What a page of the history shows, of backend/server.go.
use mathlib.Core.List.{reverse-append, map-append}
use chatster.Prelude.{
  >>=-ok, Bool, Bool-cases, List, Option, Option-cases, [], ap, arith, false, get_elem?, inl, inr,
  length, length-map, length-reverse, length-shown, ltb, ltb_false→le, ltb→lt, map, none, ok,
  ok-injective, refl, reverse, some, subst, suc, sym, take, take-all, true, zero, ℕ, ◌++◌, ◌-◌, ◌<◌,
  ◌∙◌, ◌∷◌, ◌≡◌,
}
use chatster.Text.{Text}
use chatster.Codec.{Base64, Json}
use chatster.Db.Rows.{Driver, Message, Row, Time}
use chatster.Db.Sqlite.{read_row}
use chatster.Cursor.{HistoryCursor, encode_history_cursor}
use chatster.Auth.Principals.{Principal}
use chatster.Server.{Page, next_cursor_of, page_messages, page_of}

module _ {ℓ} {A : Type ℓ} where
  -- The first rows, and the one behind them.
  take-suc-snoc :
      (n : ℕ) (xs : List A)
      → n < length xs
      → (x : A) × (take (suc n) xs ≡ take n xs ++ x ∷ []) × (get_elem? xs n ≡ some x)
  take-suc-snoc n [] h = absurd (omega arith)
  take-suc-snoc zero (x ∷ xs) h = (x, refl, refl)
  take-suc-snoc (suc n) (x ∷ xs) h =
      let (y, e, g) = take-suc-snoc n xs (omega arith) in (y, ap (◌∷◌ x) e, g)

reverse_snoc :
    {A B : Type 0} (f : A → B) (xs : List A) (x : A)
    → reverse (map f (xs ++ x ∷ [])) ≡ f x ∷ reverse (map f xs)
reverse_snoc f xs x = ap reverse (map-append f xs (x ∷ [])) ∙ reverse-append (map f xs) (f x ∷ [])

-- What is left of one row more than the limit.
page_messages-shown :
    {A : Type 0} (f : A → Message) (n : ℕ) (xs : List A)
    → page_messages n (reverse (map f (take (suc n) xs))) ≡ reverse (map f (take n xs))
unfolding page_messages
page_messages-shown f n xs = elim (Bool-cases (ltb n (length xs))) [
  | inl more ↦
      let (x, e, g) = take-suc-snoc n xs (ltb→lt n (length xs) more) in
      let one : length (reverse (map f (take (suc n) xs))) ≡ suc n =
        length-shown f (suc n) xs ∙ omega (arith, ltb→lt n (length xs) more) in
      let lt : ltb n (suc n) ≡ true = ground arith in
      let rest : suc n - n ≡ 1 = omega arith in
      rw (one, lt, rest, e, reverse_snoc f (take n xs) x) refl
  | inr few ↦
      let le = ltb_false→le n (length xs) few in
      rw
        (
          take-all (suc n) xs (omega (arith, le)),
          take-all n xs le,
          length-reverse (map f xs),
          length-map f xs,
          few,
        )
        refl
]

has_more-shown :
    {A : Type 0} (f : A → Message) (n : ℕ) (xs : List A)
    → ltb n (length (reverse (map f (take (suc n) xs)))) ≡ ltb n (length xs)
has_more-shown f n xs = rw (length-shown f (suc n) xs) (ground arith)

module _ ⦃d : Driver⦄ ⦃j : Json HistoryCursor⦄ ⦃b : Base64⦄ where
  -- The page shows the newest rows of a list that has the newest row first.
  pub record Shows (l : List Row) (now : Time) (p : Page) : Type 0 where
    pub messages : p.messages ≡ reverse (map (read_row now) (take p.limit l))
    pub has_more : p.has_more ≡ ltb p.limit (length l)
    pub last : p.has_more ≡ false → p.next_cursor ≡ none
    pub next :
        p.has_more ≡ true
        → (row : Row) × (s : Text) × (get_elem? l (p.limit - 1) ≡ some row)
          × (p.next_cursor ≡ some s)
          × (encode_history_cursor p.room (read_row now row) ≡ some s)

  next_cursor_of-true :
      (room : Text) (m : Message) (ms : List Message) (o : Option Text)
      → next_cursor_of room true (m ∷ ms) ≡ ok o
      → (s : Text) × (o ≡ some s) × (encode_history_cursor room m ≡ some s)
  unfolding next_cursor_of
  next_cursor_of-true room m ms o h = elim (Option-cases (encode_history_cursor room m)) [
    | inl e ↦ cc (rw (e, next_cursor_of) at h)
    | inr (s, e) ↦ (s, sym (ok-injective (rw (e, next_cursor_of) at h)), e)
  ]

  next_cursor_of-false :
      (room : Text) (ms : List Message) (o : Option Text)
      → next_cursor_of room false ms ≡ ok o
      → o ≡ none
  unfolding next_cursor_of
  next_cursor_of-false room ms o h = sym (ok-injective h)

  pub page_of-Shows :
      (room : Text) (k : ℕ) (l : List Row) (now : Time) (v : Principal) (p : Page)
      → page_of room (suc k) (reverse (map (read_row now) (take (suc (suc k)) l))) v ≡ ok p
      → Shows l now p × (p.room ≡ room) × (p.limit ≡ suc k) × (p.viewer ≡ v)
  unfolding page_of
  page_of-Shows room k l now v p h =
      let (o, e, h') = >>=-ok (next_cursor_of room more (page_messages (suc k) fetched)) _ h in
      let same : built o ≡ p = ok-injective h' in
      (
        subst (Shows l now) same (record {
          messages = page_messages-shown (read_row now) (suc k) l;
          has_more = has_more-shown (read_row now) (suc k) l;
          last = λ f.
              next_cursor_of-false room (page_messages (suc k) fetched) o
                (subst (λ x. next_cursor_of room x (page_messages (suc k) fetched) ≡ ok o) f e);
          next = λ t.
              next_of o
                (subst (λ x. next_cursor_of room x (page_messages (suc k) fetched) ≡ ok o) t e) t;
        }),
        sym (ap (λ (x : Page). x.room) same),
        sym (ap (λ (x : Page). x.limit) same),
        sym (ap (λ (x : Page). x.viewer) same),
      )
    where
      fetched : List Message
      fetched = reverse (map (read_row now) (take (suc (suc k)) l))

      more : Bool
      more = ltb (suc k) (length fetched)

      built : Option Text → Page
      built o = record {
        room = room;
        messages = page_messages (suc k) fetched;
        limit = suc k;
        has_more = more;
        next_cursor = o;
        viewer = v;
      }

      next_of :
          (o : Option Text)
          → next_cursor_of room true (page_messages (suc k) fetched) ≡ ok o
          → more ≡ true
          → (row : Row) × (s : Text) × (get_elem? l (suc k - 1) ≡ some row)
            × (o ≡ some s)
            × (encode_history_cursor room (read_row now row) ≡ some s)
      next_of o e t =
          let longer =
            ltb→lt (suc k) (length l) (sym (has_more-shown (read_row now) (suc k) l) ∙ t) in
          let (x, first, at) = take-suc-snoc k l (omega (arith, longer)) in
          let shown : page_messages (suc k) fetched
              ≡ read_row now x ∷ reverse (map (read_row now) (take k l)) =
            page_messages-shown (read_row now) (suc k) l
            ∙ ap (λ y. reverse (map (read_row now) y)) first
            ∙ reverse_snoc (read_row now) (take k l) x in
          let (s, given, encoded) =
            next_cursor_of-true room (read_row now x) (reverse (map (read_row now) (take k l))) o
              (subst (λ y. next_cursor_of room true y ≡ ok o) shown e) in
          let back : suc k - 1 ≡ k = omega arith in (x, s, rw back at, given, encoded)
