-- ===== src/Db/Sqlite/History.antt =====
-- The two history queries of backend/db/database.go.
use mathlib.Core.List.{Perm}
use chatster.Prelude.{
  Bool, Bool-cases, List, Result-cases, [], arith, drop, get_elem?, inl, inr, keep, map, ok, refl,
  reverse, some, suc, take, ℕ, ◌&&◌, ◌==◌, ◌∷◌, ◌≡◌, nat_eq, list_eq,
}
use chatster.Text.{Text, Unicode, to_lower, trim_space}
use chatster.Db.Room.{normalize_room}
use chatster.Db.Room.Canonical.{RoomOf, normalize_room_accepts}
use chatster.Db.Rows.{Driver, Message, Row, Time}
use chatster.Db.Sqlite.{
  Db, Faults, get_recent_messages_in_room, newest_first, older_than, read_row, scan_rows,
  select_before, select_recent,
}
use chatster.Db.Sqlite.Order.{
  Descending, IdsDistinct, keep-older_than, newest_first-Descending, newest_first-keep,
  newest_first-perm,
}
use chatster.Db.Sqlite.Sound.{IdsDistinct-of_RowsBelow, IsSound, RowsBelow-keep}

keep-and {ℓ} :
    {A : Type ℓ} (p q : A → Bool) (xs : List A) → keep (λ x. p x && q x) xs ≡ keep q (keep p xs)
unfolding keep
keep-and p q [] = refl
keep-and p q (x ∷ xs) = elim (Bool-cases (p x)) [
  | inl e ↦ elim (Bool-cases (q x)) [
    | inl k ↦ rw (e, k, keep-and p q xs) refl
    | inr k ↦ rw (e, k, keep-and p q xs) refl
  ]
  | inr e ↦ rw (e, keep-and p q xs) refl
]

module _ ⦃d : Driver⦄ where
  -- The rows of a room, newest first.
  abbrev pub history : Text → List Row → List Row
  history room rows = newest_first (keep (λ r. r.room == room) rows)

  pub IdsDistinct-room :
      (room : Text) (db : Db) → IsSound db → IdsDistinct (keep (λ r. r.room == room) db.rows)
  IdsDistinct-room room db v =
      IdsDistinct-of_RowsBelow db.next_id (keep (λ r. r.room == room) db.rows)
        (RowsBelow-keep (λ r. r.room == room) db.next_id db.rows v.ids)

  -- A cursor on a row selects what comes behind that row in the history.
  pub select_before-cursor :
      (room : Text) (t : Time) (c : Row) (n k : ℕ) (db : Db)
      → IsSound db
      → get_elem? (history room db.rows) n ≡ some c
      → c.stored ≡ d.bind_time t
      → select_before room t c.id k db.rows ≡ take k (drop (suc n) (history room db.rows))
  unfolding select_before
  select_before-cursor room t c n k db v at e =
      let distinct = IdsDistinct-room room db v in
      rw (← e) (
        rw
          (
            keep-and (λ r. r.room == room) (older_than c) db.rows,
            newest_first-keep (older_than c) (keep (λ r. r.room == room) db.rows) distinct,
            keep-older_than n c (history room db.rows) (newest_first-Descending _ distinct) at,
          )
          refl)

-- How a successful scan comes about.
pub scan_rows-ok :
    ⦃d : Driver⦄ (fails : Faults) (now : Time) (rows : List Row) (ms : List Message)
    → scan_rows fails now rows ≡ ok ms
    → ms ≡ reverse (map (read_row now) rows)
unfolding scan_rows
scan_rows-ok fails now rows ms h = ground arith

module _ ⦃u : Unicode⦄ ⦃d : Driver⦄ where
  -- On sound tables a query that succeeds returns, in chronological order, the newest `limit` of
  -- the messages of the normalised room: there is a list of all rows of that room, strictly
  -- descending by time and then identifier, and its first `limit` rows in reverse are the result.
  pub get_recent_messages_lem :
      (fails : Faults) (now : Time) (text : Text) (limit : ℕ) (db : Db) (ms : List Message)
      → IsSound db
      → get_recent_messages_in_room fails now text limit db ≡ ok ms
      → (room : Text) × (l : List Row) × RoomOf (to_lower (trim_space text)) room
        × Perm l (keep (λ r. r.room == room) db.rows)
        × Descending l
        × (ms ≡ reverse (map (read_row now) (take limit l)))
  unfolding get_recent_messages_in_room select_recent
  get_recent_messages_lem fails now text limit db ms v h =
      elim (Result-cases (normalize_room text)) [
        | inr (e, k) ↦ cc (rw (k, get_recent_messages_in_room) at h)
        | inl (room, k) ↦ (
          room,
          history room db.rows,
          (normalize_room_accepts text room).0 k,
          newest_first-perm (keep (λ r. r.room == room) db.rows),
          newest_first-Descending _ (IdsDistinct-room room db v),
          scan_rows-ok fails now (take limit (history room db.rows)) ms
              (rw (k, get_recent_messages_in_room) at h),
        )
      ]
