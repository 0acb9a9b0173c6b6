-- ===== src/Db/Sqlite/Steps.antt =====
-- What each statement of backend/db/database.go does to the log.
use chatster.Prelude.{
  All, Bool, Bool-cases, List, Result-cases, [], ap, ap₂, arith, if◌then◌else◌, inl, inr, keep, ltb,
  map, not, refl, sym, ℕ, ◌&&◌, ◌+◌, ◌==◌, ◌∙◌, ◌∷◌, ◌≡◌, nat_eq, list_eq,
}
use chatster.Text.{Text, Unicode, codes}
use chatster.Db.Room.{normalize_room}
use chatster.Db.Rows.{Driver, Message, Row, Time}
use chatster.Db.Contract.{Clockwork, LogState, if_carried, ignored, log_execute}
use chatster.Db.Sqlite.{
  Db, Faults, exec, insert_message, last_insert_id, prepare, prune_messages_before,
  prune_moderation_events_before, rows_affected, save_message_for_user_in_room,
  save_moderation_event_for_user, unsaved,
}
use chatster.Db.Sqlite.Invariant.{
  Statement, execute, prune_audit, prune_messages, save_audit, save_message,
}
use chatster.Db.Sqlite.Clock.{KeepsTime, Written, held, held-new_row, log_of, new_row}
use chatster.Db.Sqlite.Chronicle.{audit_pruned-rows, audit_saved-rows, kept_by}

-- Whether a statement is carried out.
abbrev pub carried_out : Faults → Statement → Bool
carried_out fails (save_message room user name content msg_type) =
    not (fails prepare) && not (fails exec)
carried_out fails (save_audit session user name reason content) =
    not (fails prepare) && not (fails exec)
carried_out fails (prune_messages cutoff) = not (fails exec)
carried_out fails (prune_audit cutoff) = not (fails exec)

abbrev pub steps_of : List (Faults × Time × Statement) → List (Bool × Time × ℕ × Statement)
steps_of [] = []
steps_of ((fails, now, s) ∷ rest) = (carried_out fails s, now, 0, s) ∷ steps_of rest

module _ ⦃d : Driver⦄ where
  -- A time is kept as it is; times are compared as SQLite reads them.
  abbrev pub sqlite_clock : Clockwork
  sqlite_clock = record {
    keeps = λ t. t;
    precedes = λ t cutoff. ltb (d.julianday (d.bind_time t)) (d.julianday (d.bind_time cutoff));
  }

  abbrev pub state_of : Db → LogState
  state_of db = record { entries = log_of db; next_key = db.next_id }

  abbrev outlives : Time → Message → Bool
  outlives cutoff m = not (sqlite_clock.precedes m.timestamp cutoff)

  kept_by-held :
      (cutoff : Time) (r : Row)
      → KeepsTime d
      → Written r
      → kept_by cutoff r ≡ outlives cutoff (held r)
  unfolding kept_by
  kept_by-held cutoff r laws w = ap₂ (λ a b. not (ltb a b)) (ap d.julianday w) (laws.formats cutoff)

  kept-held :
      (cutoff : Time) (rs : List Row)
      → KeepsTime d
      → All Written rs
      → map held (keep (kept_by cutoff) rs) ≡ keep (outlives cutoff) (map held rs)
  unfolding keep
  kept-held cutoff [] laws ws = refl
  kept-held cutoff (r ∷ rs) laws ws = elim (Bool-cases (kept_by cutoff r)) [
    | inl e ↦
        rw (e, sym (kept_by-held cutoff r laws ws.0) ∙ e)
          (ap (◌∷◌ (held r)) (kept-held cutoff rs laws ws.1))
    | inr e ↦ rw (e, sym (kept_by-held cutoff r laws ws.0) ∙ e) (kept-held cutoff rs laws ws.1)
  ]

module _ ⦃u : Unicode⦄ ⦃d : Driver⦄ where
  no_gap : (n : ℕ) → n + 0 ≡ n
  no_gap n = omega arith

  -- The log with one more entry.
  abbrev with_entry : Message → LogState → LogState
  with_entry m st = record { entries = m ∷ st.entries; next_key = st.next_key + 1 }

  insert_message-log :
      (fails : Faults) (now : Time) (m : Message) (db : Db)
      → KeepsTime d
      → state_of (insert_message fails now m db).1 ≡ (
          if not (fails prepare) && not (fails exec)
          then with_entry (record m { id = db.next_id; timestamp = now }) (state_of db)
          else state_of db)
  unfolding insert_message new_row
  insert_message-log fails now m db laws = elim (Bool-cases (fails prepare)) [
    | inl e ↦ rw e refl
    | inr e ↦ elim (Bool-cases (fails exec)) [
      | inl x ↦ rw (e, x) refl
      | inr x ↦ elim (Bool-cases (fails last_insert_id)) [
        | inl l ↦ rw (e, x, l) inserted
        | inr l ↦ rw (e, x, l) inserted
      ]
    ]
  ]
    where
      inserted :
          with_entry (held (new_row now db.next_id m)) (state_of db)
          ≡ with_entry (record m { id = db.next_id; timestamp = now }) (state_of db)
      inserted =
          ap (λ (x : Message). with_entry x (state_of db)) (held-new_row now db.next_id m laws)

  save_message-log :
      (fails : Faults) (now : Time) (room user name content msg_type : Text) (db : Db)
      → KeepsTime d
      → state_of (save_message_for_user_in_room fails now room user name content msg_type db).1
        ≡ log_execute sqlite_clock
            (not (fails prepare) && not (fails exec))
            now
            0
            (save_message room user name content msg_type)
            (state_of db)
  unfolding save_message_for_user_in_room log_execute
  save_message-log fails now room user name content msg_type db laws =
      elim (Result-cases (normalize_room room)) [
        | inr (e, k) ↦
            rw (save_message_for_user_in_room, k)
              (ignored sqlite_clock (not (fails prepare) && not (fails exec)) now 0
                (save_message room user name content msg_type) (state_of db)
                (rw (log_execute, k) refl))
        | inl (r, k) ↦ elim (Bool-cases (msg_type == codes "username")) [
          | inl t ↦
              rw (save_message_for_user_in_room, k, t)
                (ignored sqlite_clock (not (fails prepare) && not (fails exec)) now 0
                  (save_message room user name content msg_type) (state_of db)
                  (rw (log_execute, k, t) refl))
          | inr t ↦
              rw (save_message_for_user_in_room, k, t)
                (insert_message-log fails now (unsaved now r user name content msg_type) db laws
                  ∙ if_carried sqlite_clock (not (fails prepare) && not (fails exec)) now 0
                      (save_message room user name content msg_type) (state_of db) _
                      (rw (log_execute, k, t, no_gap db.next_id) refl))
        ]
      ]

  prune_messages-log :
      (fails : Faults) (now cutoff : Time) (db : Db)
      → KeepsTime d
      → All Written db.rows
      → state_of (prune_messages_before fails cutoff db).1
        ≡ log_execute sqlite_clock (not (fails exec)) now 0 (prune_messages cutoff) (state_of db)
  unfolding prune_messages_before log_execute kept_by
  prune_messages-log fails now cutoff db laws ws = elim (Bool-cases (fails exec)) [
    | inl e ↦ rw e refl
    | inr e ↦ elim (Bool-cases (fails rows_affected)) [
      | inl k ↦ rw (e, k) pruned
      | inr k ↦ rw (e, k) pruned
    ]
  ]
    where
      with_rows : List Message → LogState
      with_rows es = record { entries = es; next_key = db.next_id }

      pruned :
          with_rows (map held (keep (kept_by cutoff) db.rows))
          ≡ with_rows (keep (outlives cutoff) (log_of db))
      pruned = ap with_rows (kept-held cutoff db.rows laws ws)

  other_table-log :
      (db db' : Db) → db'.rows ≡ db.rows → db'.next_id ≡ db.next_id → state_of db' ≡ state_of db
  other_table-log db db' rows ids =
      ap₂ (λ (rs : List Row) (n : ℕ). record { entries = map held rs; next_key = n }) rows ids

  pub execute-log :
      (fails : Faults) (now : Time) (s : Statement) (db : Db)
      → KeepsTime d
      → All Written db.rows
      → state_of (execute fails now s db)
        ≡ log_execute sqlite_clock (carried_out fails s) now 0 s (state_of db)
  unfolding execute log_execute
  execute-log fails now (save_message a b c e f) db laws ws =
      save_message-log fails now a b c e f db laws
  execute-log fails now (save_audit a b c e f) db laws ws =
      let same = audit_saved-rows fails now a b c e f db in
      other_table-log db (save_moderation_event_for_user fails now a b c e f db).1 same.0 same.1
      ∙ ignored sqlite_clock (not (fails prepare) && not (fails exec)) now 0 (save_audit a b c e f)
          (state_of db) refl
  execute-log fails now (prune_messages t) db laws ws = prune_messages-log fails now t db laws ws
  execute-log fails now (prune_audit t) db laws ws =
      let same = audit_pruned-rows fails t db in
      other_table-log db (prune_moderation_events_before fails t db).1 same.0 same.1
      ∙ ignored sqlite_clock (not (fails exec)) now 0 (prune_audit t) (state_of db) refl
