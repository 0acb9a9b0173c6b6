-- ===== src/Db/Sqlite.antt =====
-- `DB` of backend/db/database.go: the two tables and the statements on them. A table is the list of
-- its rows, the newest insertion first, with the next value of its AUTOINCREMENT key. Every call of
-- the driver may fail: `fails` says which one does.
pub mod Order
pub mod Sound
pub mod Invariant
pub mod History
pub mod Clock
pub mod Chronicle
pub mod Steps
pub mod Refinement
use chatster.Prelude.{
  Bool, List, Option, Result, [], err, if◌then◌else◌, is_nil, keep, leb, length, ltb, map, none,
  not, ok, reverse, some, take, ℕ, ◌&&◌, ◌+◌, ◌-◌, ◌==◌, ◌||◌, ◌∷◌, nat_eq, list_eq,
}
use chatster.Text.{Text, Unicode, codes}
use chatster.Db.Room.{RoomError, normalize_room}
use chatster.Db.Rows.{
  AuditRow, Driver, Layout, Message, ModerationEvent, Row, Time, date_time, date_time_offset,
  rfc3339, rfc3339_nano,
}

pub data SqlCall : Type 0 where
  prepare exec last_insert_id rows_affected query scan rows_err : SqlCall

pub data DbError : Type 0 where
  bad_room : RoomError → DbError
  driver : SqlCall → DbError

abbrev pub Faults : Type 0
Faults = SqlCall → Bool

pub record Db : Type 0 where
  pub rows : List Row
  pub next_id : ℕ
  pub audit : List AuditRow
  pub next_audit_id : ℕ

abbrev pub fresh : Db
fresh = record { rows = []; next_id = 1; audit = []; next_audit_id = 1 }

-- `return nil, err` when a call failed
abbrev check {ℓ} :
    {A : Type ℓ} → Faults → SqlCall → Db → Result DbError A × Db → Result DbError A × Db
check fails call db rest = if fails call then (err (driver call), db) else rest

abbrev pub max_audit_preview_runes : ℕ
max_audit_preview_runes = 256

unfoldable pub truncate_runes : Text → ℕ → Text
truncate_runes s limit = if ltb limit 1 || leb (length s) limit then s else take limit s

-- The timestamps of rows: `parseMsgTimestamp`, and the current time where it fails.
module _ ⦃d : Driver⦄ where
  unfoldable pub first_layout : List Layout → Text → Option Time
  first_layout [] s = none
  first_layout (l ∷ ls) s = elim (d.parse l s) [ some t ↦ some t | none ↦ first_layout ls s ]

  unfoldable pub parse_msg_timestamp : Text → Option Time
  unfolding first_layout
  parse_msg_timestamp s =
      first_layout (rfc3339_nano ∷ rfc3339 ∷ date_time ∷ date_time_offset ∷ []) s

  unfoldable pub read_row : Time → Row → Message
  read_row now r = record {
    id = r.id;
    user_id = r.user_id;
    username = r.username;
    content = r.content;
    msg_type = r.msg_type;
    room = r.room;
    timestamp = elim (parse_msg_timestamp r.stored) [ some t ↦ t | none ↦ now ];
  }

  -- `ORDER BY julianday(timestamp) DESC, id DESC`, and the condition on a cursor.
  abbrev pub julian : Row → ℕ
  julian r = d.julianday r.stored

  abbrev pub older : ℕ → ℕ → Row → Bool
  older day id r = ltb (julian r) day || julian r == day && ltb r.id id

  abbrev pub older_than : Row → Row → Bool
  older_than r = older (julian r) r.id

  unfoldable pub insert_row : Row → List Row → List Row
  insert_row r [] = r ∷ []
  insert_row r (x ∷ xs) = if older_than x r then x ∷ insert_row r xs else r ∷ x ∷ xs

  unfoldable pub newest_first : List Row → List Row
  newest_first [] = []
  newest_first (r ∷ rs) = insert_row r (newest_first rs)

  unfoldable pub select_recent : Text → ℕ → List Row → List Row
  select_recent room limit rows = take limit (newest_first (keep (λ r. r.room == room) rows))

  unfoldable pub select_before : Text → Time → ℕ → ℕ → List Row → List Row
  select_before room before before_id limit rows = take limit (
      newest_first
        (keep (λ r. r.room == room && older (d.julianday (d.bind_time before)) before_id r) rows))

  -- `rows.Next`, `rows.Scan` and the reversal into chronological order
  pub scan_rows : Faults → Time → List Row → Result DbError (List Message)
  scan_rows fails now rows =
      if fails query
      then err (driver query)
      else if fails scan && not (is_nil rows)
      then err (driver scan)
      else if fails rows_err
      then err (driver rows_err)
      else ok (reverse (map (read_row now) rows))

  -- `INSERT INTO messages`, with the prepared statement and the generated key
  unfoldable pub insert_message : Faults → Time → Message → Db → Result DbError Message × Db
  insert_message fails now m db = check fails prepare db (
      check fails exec db (
        check fails last_insert_id inserted
          (ok (record m { id = db.next_id; timestamp = now }), inserted)))
    where
      inserted : Db
      inserted = record db {
        rows =
            record {
              id = db.next_id;
              room = m.room;
              user_id = m.user_id;
              username = m.username;
              content = m.content;
              msg_type = m.msg_type;
              stored = d.bind_time now;
            }
            ∷ db.rows;
        next_id = db.next_id + 1;
      }

  unfoldable pub save_moderation_event_for_user :
      Faults → Time → Text → Text → Text → Text → Text → Db → Result DbError ModerationEvent × Db
  save_moderation_event_for_user fails now session_id user_id username reason content db =
      check fails prepare db (
        check fails exec db (
          check fails last_insert_id inserted (
            ok (record {
              id = db.next_audit_id;
              session_id = session_id;
              user_id = user_id;
              username = username;
              reason = reason;
              content_preview = preview;
              content_length = length content;
              timestamp = now;
            }),
            inserted,
          )))
    where
      preview : Text
      preview = truncate_runes content max_audit_preview_runes

      inserted : Db
      inserted = record db {
        audit =
            record {
              id = db.next_audit_id;
              session_id = session_id;
              user_id = user_id;
              username = username;
              reason = reason;
              content_preview = preview;
              content_length = length content;
              stored = d.bind_time now;
            }
            ∷ db.audit;
        next_audit_id = db.next_audit_id + 1;
      }

  -- The DELETE statements, and the number of rows that they deleted.
  unfoldable pub prune_messages_before : Faults → Time → Db → Result DbError ℕ × Db
  prune_messages_before fails cutoff db =
      let rest = keep (λ r. not (ltb (julian r) (d.julianday (d.format_utc cutoff)))) db.rows in
      check fails exec db (
        check fails rows_affected (record db { rows = rest })
          (ok (length db.rows - length rest), record db { rows = rest }))

  unfoldable pub prune_moderation_events_before : Faults → Time → Db → Result DbError ℕ × Db
  prune_moderation_events_before fails cutoff db =
      let rest =
        keep
          (λ (r : AuditRow). not (ltb (d.julianday r.stored) (d.julianday (d.format_utc cutoff))))
          db.audit in
      check fails exec db (
        check fails rows_affected (record db { audit = rest })
          (ok (length db.audit - length rest), record db { audit = rest }))

-- The `Message` that is returned, before it has a key.
abbrev pub unsaved : Time → Text → Text → Text → Text → Text → Message
unsaved now room user_id username content msg_type = record {
  id = 0;
  user_id = user_id;
  username = username;
  content = content;
  msg_type = msg_type;
  room = room;
  timestamp = now;
}

module _ ⦃u : Unicode⦄ ⦃d : Driver⦄ where
  -- A message of type `username` is returned and not stored.
  unfoldable pub save_message_for_user_in_room :
      Faults → Time → Text → Text → Text → Text → Text → Db → Result DbError Message × Db
  unfolding insert_message
  save_message_for_user_in_room fails now room user_id username content msg_type db =
      elim (normalize_room room) [
        | err e ↦ (err (bad_room e), db)
        | ok canonical ↦
            let m = unsaved now canonical user_id username content msg_type in
            if msg_type == codes "username" then (ok m, db) else insert_message fails now m db
      ]

  unfoldable pub get_recent_messages_in_room :
      Faults → Time → Text → ℕ → Db → Result DbError (List Message)
  unfolding scan_rows
  get_recent_messages_in_room fails now room limit db = elim (normalize_room room) [
    | err e ↦ err (bad_room e)
    | ok canonical ↦ scan_rows fails now (select_recent canonical limit db.rows)
  ]

  unfoldable pub get_messages_before_in_room :
      Faults → Time → Text → Time → ℕ → ℕ → Db → Result DbError (List Message)
  unfolding scan_rows
  get_messages_before_in_room fails now room before before_id limit db =
      elim (normalize_room room) [
        | err e ↦ err (bad_room e)
        | ok canonical ↦
            scan_rows fails now (select_before canonical before before_id limit db.rows)
      ]
