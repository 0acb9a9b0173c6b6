-- ===== src/Db/Sqlite/Invariant.antt =====
-- The two tables of backend/db/database.go under sequences of statements.
use chatster.Prelude.{
  All-keep, Bool, Bool-cases, List, Result-cases, [], inl, inr, keep, ltb, ne_of_false, not, ◌==◌,
  ◌∷◌, nat_eq, list_eq,
}
use chatster.Text.{Text, Unicode, codes}
use chatster.Db.Room.{normalize_room}
use chatster.Db.Room.Canonical.{normalize_room-IsRoom}
use chatster.Db.Rows.{AuditRow, Driver, Row, Time}
use chatster.Db.Sqlite.{
  Db, Faults, exec, julian, prune_messages_before, prune_moderation_events_before, rows_affected,
  save_message_for_user_in_room, save_moderation_event_for_user, unsaved,
}
use chatster.Db.Sqlite.Sound.{
  AuditBelow-keep, IsPreview, IsSound, IsStored, RowsBelow-keep, insert_message-IsSound,
  save_moderation_event-IsSound,
}

module _ ⦃d : Driver⦄ where
  prune_messages-IsSound :
      (fails : Faults) (cutoff : Time) (db : Db)
      → IsSound db
      → IsSound (prune_messages_before fails cutoff db).1
  unfolding prune_messages_before
  prune_messages-IsSound fails cutoff db v = elim (Bool-cases (fails exec)) [
    | inl e ↦ rw e v
    | inr e ↦ elim (Bool-cases (fails rows_affected)) [
      | inl k ↦ rw (e, k) pruned
      | inr k ↦ rw (e, k) pruned
    ]
  ]
    where
      kept : Row → Bool
      kept r = not (ltb (julian r) (d.julianday (d.format_utc cutoff)))

      pruned : IsSound (record db { rows = keep kept db.rows })
      pruned = record {
        ids = RowsBelow-keep kept db.next_id db.rows v.ids;
        positive = v.positive;
        stored = All-keep IsStored kept db.rows v.stored;
        audit_ids = v.audit_ids;
        audit_positive = v.audit_positive;
        previews = v.previews;
      }

  prune_moderation_events-IsSound :
      (fails : Faults) (cutoff : Time) (db : Db)
      → IsSound db
      → IsSound (prune_moderation_events_before fails cutoff db).1
  unfolding prune_moderation_events_before
  prune_moderation_events-IsSound fails cutoff db v = elim (Bool-cases (fails exec)) [
    | inl e ↦ rw e v
    | inr e ↦ elim (Bool-cases (fails rows_affected)) [
      | inl k ↦ rw (e, k) pruned
      | inr k ↦ rw (e, k) pruned
    ]
  ]
    where
      kept : AuditRow → Bool
      kept r = not (ltb (d.julianday r.stored) (d.julianday (d.format_utc cutoff)))

      pruned : IsSound (record db { audit = keep kept db.audit })
      pruned = record {
        ids = v.ids;
        positive = v.positive;
        stored = v.stored;
        audit_ids = AuditBelow-keep kept db.next_audit_id db.audit v.audit_ids;
        audit_positive = v.audit_positive;
        previews = All-keep IsPreview kept db.audit v.previews;
      }

-- The statements that write, with their arguments.
pub data Statement : Type 0 where
  save_message : Text → Text → Text → Text → Text → Statement
  save_audit : Text → Text → Text → Text → Text → Statement
  prune_messages : Time → Statement
  prune_audit : Time → Statement

module _ ⦃u : Unicode⦄ ⦃d : Driver⦄ where
  save_message-IsSound :
      (fails : Faults) (now : Time) (room user name content msg_type : Text) (db : Db)
      → IsSound db
      → IsSound (save_message_for_user_in_room fails now room user name content msg_type db).1
  unfolding save_message_for_user_in_room
  save_message-IsSound fails now room user name content msg_type db v =
      elim (Result-cases (normalize_room room)) [
        | inr (e, h) ↦ rw (h, save_message_for_user_in_room) v
        | inl (r, h) ↦ elim (Bool-cases (msg_type == codes "username")) [
          | inl k ↦ rw (h, save_message_for_user_in_room, k) v
          | inr k ↦
              rw (h, save_message_for_user_in_room, k)
                (insert_message-IsSound fails now (unsaved now r user name content msg_type) db
                  (normalize_room-IsRoom room h) (ne_of_false msg_type (codes "username") k) v)
        ]
      ]

  unfoldable pub execute : Faults → Time → Statement → Db → Db
  execute fails now (save_message room user name content msg_type) db =
      (save_message_for_user_in_room fails now room user name content msg_type db).1
  execute fails now (save_audit session user name reason content) db =
      (save_moderation_event_for_user fails now session user name reason content db).1
  execute fails now (prune_messages cutoff) db = (prune_messages_before fails cutoff db).1
  execute fails now (prune_audit cutoff) db = (prune_moderation_events_before fails cutoff db).1

  unfoldable pub execute_all : List (Faults × Time × Statement) → Db → Db
  unfolding execute
  execute_all [] db = db
  execute_all ((fails, now, s) ∷ rest) db = execute_all rest (execute fails now s db)

  pub execute-IsSound :
      (fails : Faults) (now : Time) (s : Statement) (db : Db)
      → IsSound db
      → IsSound (execute fails now s db)
  unfolding execute
  execute-IsSound fails now (save_message a b c e f) db v =
      save_message-IsSound fails now a b c e f db v
  execute-IsSound fails now (save_audit a b c e f) db v =
      save_moderation_event-IsSound fails now a b c e f db v
  execute-IsSound fails now (prune_messages t) db v = prune_messages-IsSound fails t db v
  execute-IsSound fails now (prune_audit t) db v = prune_moderation_events-IsSound fails t db v

  -- Whatever statements run on sound tables, and whichever calls of the driver fail, identifiers
  -- stay positive, distinct and below the next one, stored rooms canonical, stored types durable,
  -- stored times those that were bound, and previews within 256 runes.
  pub execute_all-IsSound :
      (ss : List (Faults × Time × Statement)) (db : Db) → IsSound db → IsSound (execute_all ss db)
  unfolding execute_all
  execute_all-IsSound [] db v = v
  execute_all-IsSound ((fails, now, s) ∷ rest) db v =
      execute_all-IsSound rest (execute fails now s db) (execute-IsSound fails now s db v)
