-- ===== src/Server/History.antt =====
-- The pages of the history endpoint.

use chatster.Prelude.{
  >>=-ok, Bool-cases, List, Option, Result, ap, arith, drop, eq→≡, err, get_elem?, if◌then◌else◌,
  inl, inr, is_nil, length, ltb, map, none, not, not-false, ok, ok-injective, or_fail-ok, refl,
  reject_if-ok, reverse, some, some-injective, subst, suc, sym, take, zero, ℕ, ◌+◌, ◌==◌, ◌>>=◌,
  ◌∙◌, ◌≡◌, ◌≤◌, nat_eq, list_eq,
}
use chatster.Prelude.Int.{negsuc, pos, ℤ}
use chatster.Text.{Text, Unicode, codes}
use chatster.Codec.{Base64, Digest, Json}
use chatster.Db.Room.{normalize_room}
use chatster.Db.Room.Canonical.{normalize_room_canonical}
use chatster.Db.Rows.{Driver, Message, Row, Time}
use chatster.Db.Sqlite.{
  Db, Faults, get_messages_before_in_room, get_recent_messages_in_room, read_row, scan_rows,
  select_before, select_recent,
}
use chatster.Db.Sqlite.Sound.{IsSound}
use chatster.Db.Sqlite.History.{history, scan_rows-ok, select_before-cursor}
use chatster.Cursor.{HistoryCursor}
use chatster.Auth.Principals.{Principal}
use chatster.Auth.Service.{Service}
use chatster.Auth.Session.{SessionPayload, authorize}
use chatster.Text.Numbers.{atoi}
use chatster.Server.{
  Page, Refusal, Request, cursor_of, fetch, limit_of, messages_handler, next_cursor_of, or_refuse,
  page_messages, page_of,
}
use chatster.Server.Shown.{Shows, page_of-Shows}

limit_of-bounds : (raw : Text) (n : ℕ) → limit_of raw ≡ some n → (1 ≤ n) × (n ≤ 100)
unfolding limit_of
limit_of-bounds raw n h = elim (Bool-cases (is_nil raw)) [
  | inl e ↦
      let same : 50 ≡ n = some-injective _ _ (rw (e, limit_of) at h) in (omega arith, omega arith)
  | inr e ↦ bounds (atoi raw) (rw (e, limit_of) at h)
]
  where
    bounds :
        (o : Option ℤ)
        → (elim o [
          | none ↦ none
          | some (negsuc n) ↦ none
          | some (pos n) ↦ if ltb n 1 then none else some (if ltb 100 n then 100 else n)
        ])
          ≡ some n
        → (1 ≤ n) × (n ≤ 100)
    bounds none k = cc
    bounds (some (negsuc m)) k = cc
    bounds (some (pos m)) k = ground arith

module _ ⦃u : Unicode⦄ ⦃d : Driver⦄ where
  -- What a request selects: the whole history of the room, or what comes behind the row that the
  -- cursor was issued for.
  pub data Selects (db : Db) (room : Text) : Option HistoryCursor → List Row → Type 0 where
    newest : Selects db room none (history room db.rows)
    behind :
        (c : HistoryCursor) (n : ℕ) (row : Row)
        → get_elem? (history room db.rows) n ≡ some row
        → row.id ≡ c.id
        → row.stored ≡ d.bind_time c.timestamp
        → Selects db room (some c) (drop (suc n) (history room db.rows))

  fetch-Selects :
      (fails : Faults) (now : Time) (room : Text) (before : Option HistoryCursor) (limit : ℕ)
      (db : Db) (l : List Row) (ms : List Message)
      → IsSound db
      → normalize_room room ≡ ok room
      → Selects db room before l
      → fetch fails now room before limit db ≡ ok ms
      → ms ≡ reverse (map (read_row now) (take limit l))
  unfolding fetch get_recent_messages_in_room select_recent get_messages_before_in_room
  fetch-Selects fails now room none limit db l ms v r newest h =
      scan_rows-ok fails now (take limit (history room db.rows)) ms
        (rw (r, get_recent_messages_in_room, select_recent) at h)
  fetch-Selects fails now room (some c) limit db l ms v r (behind _ n row at same_id same_time) h =
      scan_rows-ok fails now (take limit (drop (suc n) (history room db.rows))) ms (
        subst (λ x. scan_rows fails now x ≡ ok ms)
          (subst
            (λ i.
              select_before room c.timestamp i limit db.rows
              ≡ take limit (drop (suc n) (history room db.rows)))
            same_id (select_before-cursor room c.timestamp row n limit db v at same_time))
          (rw (r, get_messages_before_in_room) at h))

pub or_refuse-ok :
    {A B E : Type 0} (r : Result E A) (f : E → Refusal) (k : A → Result Refusal B) {b : B}
    → (or_refuse r f >>= k) ≡ ok b
    → (a : A) × (r ≡ ok a) × (k a ≡ ok b)
or_refuse-ok (ok a) f k h = (a, refl, h)
or_refuse-ok (err e) f k h = cc

module _ ⦃d : Driver⦄ ⦃j : Json HistoryCursor⦄ ⦃b : Base64⦄ where
  page_of-fields :
      (room : Text) (n : ℕ) (ms : List Message) (v : Principal) (p : Page)
      → page_of room n ms v ≡ ok p
      → (p.room ≡ room) × (p.limit ≡ n) × (p.viewer ≡ v)
  unfolding page_of
  page_of-fields room n ms v p h =
      let (o, e, h') = >>=-ok (next_cursor_of room (ltb n (length ms)) (page_messages n ms)) _ h in
      let same = ok-injective h' in
      (
        sym (ap (λ (x : Page). x.room) same),
        sym (ap (λ (x : Page). x.limit) same),
        sym (ap (λ (x : Page). x.viewer) same),
      )

  page_of-limit :
      (room : Text) (n : ℕ) (l : List Row) (now : Time) (ms : List Message) (v : Principal)
      (p : Page)
      → 1 ≤ n
      → ms ≡ reverse (map (read_row now) (take (n + 1) l))
      → page_of room n ms v ≡ ok p
      → Shows l now p
  page_of-limit room zero l now ms v p one e h = absurd (omega arith)
  page_of-limit room (suc k) l now ms v p one e h =
      let two : suc k + 1 ≡ suc (suc k) = omega arith in
      (page_of-Shows room k l now v p (
        subst (λ x. page_of room (suc k) x v ≡ ok p)
          (e ∙ ap (λ i. reverse (map (read_row now) (take i l))) two) h)).0

module _ ⦃u : Unicode⦄ ⦃d : Driver⦄ ⦃j : Json HistoryCursor⦄ ⦃s : Json SessionPayload⦄ ⦃b : Base64⦄
    ⦃g : Digest⦄ where
  -- A page that the history endpoint returns on sound tables, without a cursor or with the cursor of
  -- a row of the room: the request was a GET, the room is the normalised one, the viewer is
  -- authorised for it, the limit is from 1 to 100, and the page shows, in chronological order, the
  -- newest rows of the history, or of what comes behind the row of the cursor; it says whether there
  -- are more, and in that case its next cursor is the one of the oldest row shown.
  pub messages_handler-Shows :
      (service : Option Service) (fails : Faults) (now : Time) (r : Request) (db : Db) (p : Page)
      (before : Option HistoryCursor) (l : List Row)
      → IsSound db
      → messages_handler service fails now r db ≡ ok p
      → cursor_of r.before_param p.room ≡ ok before
      → Selects db p.room before l
      → (r.method ≡ codes "GET")
        × (normalize_room r.room_param ≡ ok p.room)
        × (authorize service r.cookie now p.room ≡ ok p.viewer)
        × (1 ≤ p.limit)
        × (p.limit ≤ 100)
        × Shows l now p
  unfolding messages_handler
  messages_handler-Shows service fails now r db p before l sound h cursor selects =
      let (m, h₁) = reject_if-ok (not (r.method == codes "GET")) _ _ h in
      let (room, normal, h₂) = or_refuse-ok (normalize_room r.room_param) _ _ h₁ in
      let (viewer, granted, h₃) = or_refuse-ok (authorize service r.cookie now room) _ _ h₂ in
      let (n, limited, h₄) = or_fail-ok (limit_of r.limit_param) _ _ h₃ in
      let (c, decoded, h₅) = >>=-ok (cursor_of r.before_param room) _ h₄ in
      let (ms, fetched, h₆) = or_refuse-ok (fetch fails now room c (n + 1) db) _ _ h₅ in
      let (same_room, same_limit, same_viewer) = page_of-fields room n ms viewer p h₆ in
      let (lo, hi) = limit_of-bounds r.limit_param n limited in
      let same_cursor : c ≡ before =
        ok-injective
          (sym decoded ∙ subst (λ x. cursor_of r.before_param x ≡ ok before) same_room cursor) in
      let selected : Selects db room c l =
        subst (λ x. Selects db room x l) (sym same_cursor)
          (subst (λ x. Selects db x before l) same_room selects) in
      let shown =
        fetch-Selects fails now room c (n + 1) db l ms sound
          (normalize_room_canonical r.room_param room normal).1 selected fetched in
      (
        eq→≡ r.method (codes "GET") (not-false _ m),
        rw same_room normal,
        rw (same_room, same_viewer) granted,
        rw same_limit lo,
        rw same_limit hi,
        page_of-limit room n l now ms viewer p lo shown h₆,
      )
