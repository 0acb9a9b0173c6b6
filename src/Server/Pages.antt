-- ===== src/Server/Pages.antt =====
-- From one page of the history to the next.
use chatster.Prelude.{
  All, All-get, List, Option, [], ap, arith, drop, eq_refl, get_elem?, map, ok, refl, some,
  some-injective, subst, suc, sym, true, zero, ℕ, ◌+◌, ◌-◌, ◌<◌, ◌∙◌, ◌∷◌, ◌≡◌, ◌≤◌, nat_eq,
  list_eq,
}
use chatster.Text.{Text, Unicode, byte_len, equal_fold, fold_rune}
use chatster.Codec.{Base64, Base64Laws, Json, JsonRoundTrips}
use chatster.Db.Room.Canonical.{IsRoom}
use chatster.Db.Rows.{Driver, Row, Time}
use chatster.Db.Sqlite.{Db, read_row}
use chatster.Db.Sqlite.History.{history}
use chatster.Cursor.{
  HistoryCursor, decode_history_cursor, encode_history_cursor, history_cursor_room_matches,
  history_cursor_version, max_history_cursor_size,
}
use chatster.Cursor.Laws.{decode_history_cursor-encode}
use chatster.Server.{Page, cursor_of}
use chatster.Server.Shown.{Shows}
use chatster.Server.History.{Selects, behind, newest}

module _ {ℓ} {A : Type ℓ} where
  drop-nil : (n : ℕ) → drop {A = A} n [] ≡ []
  drop-nil zero = refl
  drop-nil (suc n) = refl

  drop-drop : (n m : ℕ) (xs : List A) → drop m (drop n xs) ≡ drop (n + m) xs
  drop-drop zero m xs = let e : 0 + m ≡ m = omega arith in rw e refl
  drop-drop (suc n) m [] = drop-nil m ∙ sym (drop-nil (suc n + m))
  drop-drop (suc n) m (x ∷ xs) =
      let e : suc n + m ≡ suc (n + m) = omega arith in rw e (drop-drop n m xs)

  get_elem?-drop : (n k : ℕ) (xs : List A) → get_elem? (drop n xs) k ≡ get_elem? xs (n + k)
  get_elem?-drop zero k xs = let e : 0 + k ≡ k = omega arith in rw e refl
  get_elem?-drop (suc n) k [] = refl
  get_elem?-drop (suc n) k (x ∷ xs) =
      let e : suc n + k ≡ suc (n + k) = omega arith in rw e (get_elem?-drop n k xs)

module _ ⦃u : Unicode⦄ ⦃d : Driver⦄ ⦃j : Json HistoryCursor⦄ ⦃b : Base64⦄ where
  -- A row with a positive identifier whose time is read back as it was bound.
  pub record IsFaithful (now : Time) (r : Row) : Type 0 where
    pub identified : 0 < r.id
    pub dated : 0 < (read_row now r).timestamp
    pub bound : r.stored ≡ d.bind_time (read_row now r).timestamp

  Selects-offset :
      (db : Db) (room : Text) (before : Option HistoryCursor) (l : List Row)
      → Selects db room before l
      → (n : ℕ) × (l ≡ drop n (history room db.rows))
  Selects-offset db room _ l newest = (0, refl)
  Selects-offset db room _ l (behind c n row at i t) = (suc n, refl)

  matches_self :
      (c : HistoryCursor) (room : Text) → c.room ≡ room → history_cursor_room_matches c room ≡ true
  unfolding history_cursor_room_matches equal_fold
  matches_self c room e = rw e (eq_refl (map fold_rune room))

  -- Where a page says that there are more, its cursor is accepted for the room, and selects exactly
  -- the rows behind those that the page shows, as long as the rows of the room are read back
  -- faithfully and the cursor is not longer than 512 bytes.
  pub next_page-Selects :
      (now : Time) (db : Db) (before : Option HistoryCursor) (l : List Row) (p : Page) (s : Text)
      → JsonRoundTrips j
      → Base64Laws b
      → IsRoom p.room
      → All (IsFaithful now) (history p.room db.rows)
      → Selects db p.room before l
      → Shows l now p
      → 1 ≤ p.limit
      → p.has_more ≡ true
      → p.next_cursor ≡ some s
      → byte_len s ≤ max_history_cursor_size
      → (c : HistoryCursor) × (cursor_of (some (s ∷ [])) p.room ≡ ok (some c))
        × Selects db p.room (some c) (drop p.limit l)
  unfolding read_row cursor_of
  next_page-Selects now db before l p s jl bl canonical faithful selects shows one more given
        small =
      let (row, s', at, given', encoded) = shows.next more in
      let same : s' ≡ s = some-injective _ _ (sym given' ∙ given) in
      let (n, tail) = Selects-offset db p.room before l selects in
      let place : get_elem? (history p.room db.rows) (n + (p.limit - 1)) ≡ some row =
        sym (get_elem?-drop n (p.limit - 1) (history p.room db.rows))
        ∙ subst (λ x. get_elem? x (p.limit - 1) ≡ some row) tail at in
      let good : IsFaithful now row =
        All-get (IsFaithful now) (history p.room db.rows) (n + (p.limit - 1)) row faithful place in
      let c : HistoryCursor = record {
        version = history_cursor_version;
        room = p.room;
        timestamp = (read_row now row).timestamp;
        id = row.id;
      } in
      let decoded : decode_history_cursor s ≡ some c =
        decode_history_cursor-encode p.room (read_row now row) s jl bl canonical good.identified
          good.dated
          (subst (λ x. encode_history_cursor p.room (read_row now row) ≡ some x) same encoded)
          small in
      let step : suc (n + (p.limit - 1)) ≡ n + p.limit = omega (arith, one) in
      let rest : drop (suc (n + (p.limit - 1))) (history p.room db.rows) ≡ drop p.limit l =
        ap (λ k. drop k (history p.room db.rows)) step
        ∙ sym (drop-drop n p.limit (history p.room db.rows))
        ∙ ap (drop p.limit) (sym tail) in
      (
        c,
        rw (decoded, cursor_of, matches_self c p.room refl) refl,
        subst (Selects db p.room (some c)) rest
            (behind c (n + (p.limit - 1)) row place refl good.bound),
      )
