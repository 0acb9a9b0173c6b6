-- ===== src/Db/Postgres.antt =====
-- `PostgresDB` of backend/db/postgres.go: its two tables and the statements on them. A table is the list
-- of its rows, the newest insertion first. The clock is that of the server, in
-- microseconds. An identity column gives
-- greater and greater keys, which may leave gaps: `skipped` is the size of the gap before a key. A
-- statement may be refused, and its reply may be lost once it was carried out.
pub mod Ordered
pub mod Steps
pub mod Refinement
use chatster.Prelude.{
  Bool, List, Result, [], err, if◌then◌else◌, is_nil, keep, length, ltb, not, ok, reverse, take, ℕ,
  ◌&&◌, ◌+◌, ◌-◌, ◌/◌, ◌*◌, ◌==◌, ◌||◌, ◌∷◌, nat_eq, list_eq,
}
use chatster.Text.{Text, Unicode, codes}
use chatster.Db.Room.{RoomError, normalize_room}
use chatster.Db.Rows.{Message, ModerationEvent, Time}
use chatster.Db.Sqlite.{max_audit_preview_runes, truncate_runes, unsaved}

pub data PgCall : Type 0 where
  refused reply_lost scan_failed rows_failed : PgCall

pub data PgError : Type 0 where
  bad_room_name : RoomError → PgError
  pool_error : PgCall → PgError

abbrev pub PgFaults : Type 0
PgFaults = PgCall → Bool

pub record Postgres : Type 0 where
  pub rows : List Message
  pub next_id : ℕ
  pub audit : List ModerationEvent
  pub next_audit_id : ℕ

abbrev pub new_database : Postgres
new_database = record { rows = []; next_id = 1; audit = []; next_audit_id = 1 }

-- `ORDER BY timestamp DESC, id DESC`, and the condition on a cursor.
abbrev pub is_before : Time → ℕ → Message → Bool
is_before before before_id m = ltb m.timestamp before || m.timestamp == before && ltb m.id before_id

unfoldable pub place : Message → List Message → List Message
place m [] = m ∷ []
place m (x ∷ xs) =
    let rest = place m xs in if is_before x.timestamp x.id m then x ∷ rest else m ∷ x ∷ xs

unfoldable pub latest_first : List Message → List Message
latest_first [] = []
latest_first (m ∷ ms) = place m (latest_first ms)

-- A `timestamptz` has microseconds; what a parameter has beyond them is cut off.
unfoldable pub micros : Time → Time
micros t = t / 1000 * 1000

-- A statement that writes: refused, or carried out, and then perhaps without a reply.
abbrev carry_out {ℓ} :
    {A : Type ℓ} → PgFaults → A → Postgres → Postgres → Result PgError A × Postgres
carry_out fails reply before after =
    if fails refused
    then (err (pool_error refused), before)
    else if fails reply_lost
    then (err (pool_error reply_lost), after)
    else (ok reply, after)

-- `rows.Next`, `rows.Scan` and the reversal into chronological order
abbrev collect : PgFaults → List Message → Result PgError (List Message)
collect fails rows =
    if fails refused
    then err (pool_error refused)
    else if fails scan_failed && not (is_nil rows)
    then err (pool_error scan_failed)
    else if fails rows_failed
    then err (pool_error rows_failed)
    else ok (reverse rows)

unfoldable pub pg_insert :
    PgFaults → Time → ℕ → Message → Postgres → Result PgError Message × Postgres
pg_insert fails now skipped m db =
    let stored : Message = record m { id = db.next_id + skipped; timestamp = micros now } in
    carry_out fails stored db
      (record db { rows = stored ∷ db.rows; next_id = db.next_id + skipped + 1 })

unfoldable pub pg_prune_messages : PgFaults → Time → Postgres → Result PgError ℕ × Postgres
pg_prune_messages fails cutoff db =
    let rest = keep (λ (m : Message). not (ltb m.timestamp (micros cutoff))) db.rows in
    carry_out fails (length db.rows - length rest) db (record db { rows = rest })

unfoldable pub pg_prune_audit : PgFaults → Time → Postgres → Result PgError ℕ × Postgres
pg_prune_audit fails cutoff db =
    let rest = keep (λ (e : ModerationEvent). not (ltb e.timestamp (micros cutoff))) db.audit in
    carry_out fails (length db.audit - length rest) db (record db { audit = rest })

unfoldable pub pg_save_moderation_event :
    PgFaults
    → Time
    → ℕ
    → Text
    → Text
    → Text
    → Text
    → Text
    → Postgres
    → Result PgError ModerationEvent × Postgres
pg_save_moderation_event fails now skipped session_id user_id username reason content db =
    let event : ModerationEvent = record {
      id = db.next_audit_id + skipped;
      session_id = session_id;
      user_id = user_id;
      username = username;
      reason = reason;
      content_preview = truncate_runes content max_audit_preview_runes;
      content_length = length content;
      timestamp = micros now;
    } in
    carry_out fails event db
      (record db { audit = event ∷ db.audit; next_audit_id = db.next_audit_id + skipped + 1 })

module _ ⦃u : Unicode⦄ where
  -- A message of type `username` is returned with the time of the process and not stored.
  unfoldable pub pg_save_message :
      PgFaults
      → Time
      → ℕ
      → Text
      → Text
      → Text
      → Text
      → Text
      → Postgres
      → Result PgError Message × Postgres
  pg_save_message fails now skipped room user_id username content msg_type db =
      elim (normalize_room room) [
        | err e ↦ (err (bad_room_name e), db)
        | ok canonical ↦
            let m = unsaved now canonical user_id username content msg_type in
            if msg_type == codes "username" then (ok m, db) else pg_insert fails now skipped m db
      ]

  unfoldable pub pg_get_recent : PgFaults → Text → ℕ → Postgres → Result PgError (List Message)
  pg_get_recent fails room limit db = elim (normalize_room room) [
    | err e ↦ err (bad_room_name e)
    | ok canonical ↦
        collect fails (take limit (latest_first (keep (λ m. m.room == canonical) db.rows)))
  ]

  unfoldable pub pg_get_before :
      PgFaults → Text → Time → ℕ → ℕ → Postgres → Result PgError (List Message)
  pg_get_before fails room before before_id limit db = elim (normalize_room room) [
    | err e ↦ err (bad_room_name e)
    | ok canonical ↦ collect fails (
        take limit (
          latest_first
            (keep (λ m. m.room == canonical && is_before (micros before) before_id m) db.rows)))
  ]
