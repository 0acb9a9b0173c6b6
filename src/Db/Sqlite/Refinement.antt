-- ===== src/Db/Sqlite/Refinement.antt =====
-- The messages of backend/db/database.go as a log.
use chatster.Prelude.{
  All, All-keep, Bool-cases, List, Result-cases, [], ap, ap₂, arith, false, inl, inr, keep, map, ok,
  refl, reverse, subst, sym, take, ℕ, ◌==◌, ◌∙◌, ◌∷◌, ◌≡◌, ◌≤◌, nat_eq, list_eq,
}
use chatster.Text.{Text, Unicode, codes}
use chatster.Db.Room.{normalize_room}
use chatster.Db.Room.Canonical.{normalize_room-IsRoom}
use chatster.Db.Rows.{Driver, Message, Row, Time}
use chatster.Db.Log.{All-take, IsLog, IsLog-keep, LogReach, LogReach-trans, here, log_recent}
use chatster.Db.Sqlite.{
  Db, Faults, bad_room, fresh, get_recent_messages_in_room, insert_row, newest_first, older_than,
  read_row, save_message_for_user_in_room, scan_rows, select_recent, unsaved,
}
use chatster.Db.Sqlite.Invariant.{
  Statement, execute, execute_all, prune_audit, prune_messages, save_audit, save_message,
}
use chatster.Db.Sqlite.Clock.{
  Evolves, IsChronicle, KeepsTime, Written, held, insert_message-Evolves, log_of, map-keep,
  map-take, read_row-held, rests,
}
use chatster.Db.Contract.{answered, empty_log, log_execute_all}
use chatster.Db.Sqlite.Steps.{execute-log, sqlite_clock, state_of, steps_of}
use chatster.Db.Sqlite.Chronicle.{
  audit_pruned-rows, audit_saved-rows, julian-le, other_table, prune_messages-Evolves,
}

module _ ⦃d : Driver⦄ where
  map-read_row :
      (now : Time) (rs : List Row)
      → KeepsTime d
      → All Written rs
      → map (read_row now) rs ≡ map held rs
  map-read_row now [] laws ws = refl
  map-read_row now (r ∷ rs) laws ws =
      ap₂ ◌∷◌ (read_row-held now r laws ws.0) (map-read_row now rs laws ws.1)

  -- Rows that are in the order of the log stay where they are.
  insert_row-first :
      (r : Row) (rs : List Row)
      → KeepsTime d
      → Written r
      → All Written rs
      → IsLog (map held (r ∷ rs))
      → insert_row r rs ≡ r ∷ rs
  unfolding insert_row read_row
  insert_row-first r [] laws wr ws v = refl
  insert_row-first r (x ∷ rs) laws wr ws v =
      let p = v.0.0 in
      let t = julian-le x r laws ws.0 wr v.1.0 in
      let newer : older_than x r ≡ false = ground arith in rw newer refl

  newest_first-IsLog :
      (rs : List Row) → KeepsTime d → All Written rs → IsLog (map held rs) → newest_first rs ≡ rs
  unfolding newest_first
  newest_first-IsLog [] laws ws v = refl
  newest_first-IsLog (r ∷ rs) laws ws v =
      ap (insert_row r) (newest_first-IsLog rs laws ws.1 v.2)
      ∙ insert_row-first r rs laws ws.0 ws.1 v

module _ ⦃u : Unicode⦄ ⦃d : Driver⦄ where
  save_message-Evolves :
      (fails : Faults) (last now : Time) (room user name content msg_type : Text) (db : Db)
      → KeepsTime d
      → last ≤ now
      → IsChronicle last db
      → Evolves now db
          (save_message_for_user_in_room fails now room user name content msg_type db).1
  unfolding save_message_for_user_in_room
  save_message-Evolves fails last now room user name content msg_type db laws h v =
      elim (Result-cases (normalize_room room)) [
        | inr (e, k) ↦ rw (k, save_message_for_user_in_room) (rests last now db h v)
        | inl (r, k) ↦ elim (Bool-cases (msg_type == codes "username")) [
          | inl t ↦ rw (k, save_message_for_user_in_room, t) (rests last now db h v)
          | inr t ↦
              rw (k, save_message_for_user_in_room, t)
                (insert_message-Evolves fails last now (unsaved now r user name content msg_type) db
                  laws h (normalize_room-IsRoom room k) v)
        ]
      ]

  execute-Evolves :
      (fails : Faults) (last now : Time) (s : Statement) (db : Db)
      → KeepsTime d
      → last ≤ now
      → IsChronicle last db
      → Evolves now db (execute fails now s db)
  unfolding execute
  execute-Evolves fails last now (save_message a b c e f) db laws h v =
      save_message-Evolves fails last now a b c e f db laws h v
  execute-Evolves fails last now (save_audit a b c e f) db laws h v =
      let same = audit_saved-rows fails now a b c e f db in
      other_table last now db _ h same.0 same.1 v
  execute-Evolves fails last now (prune_messages t) db laws h v =
      prune_messages-Evolves fails last now t db laws h v
  execute-Evolves fails last now (prune_audit t) db laws h v =
      let same = audit_pruned-rows fails t db in other_table last now db _ h same.0 same.1 v

  -- The clock does not go back.
  abbrev pub IsTimely : Time → List (Faults × Time × Statement) → Type 0
  IsTimely last [] = Unit
  IsTimely last ((fails, now, s) ∷ rest) = (last ≤ now) × IsTimely now rest

  -- The messages go through the steps of the log.
  execute_all-log :
      (last : Time) (ss : List (Faults × Time × Statement)) (db : Db)
      → KeepsTime d
      → IsTimely last ss
      → IsChronicle last db
      → state_of (execute_all ss db) ≡ log_execute_all sqlite_clock (steps_of ss) (state_of db)
  unfolding execute_all log_execute_all
  execute_all-log last [] db laws h v = refl
  execute_all-log last ((fails, now, s) ∷ rest) db laws h v =
      execute_all-log now rest (execute fails now s db) laws h.1
        (execute-Evolves fails last now s db laws h.0 v).ordered
      ∙ ap (log_execute_all sqlite_clock (steps_of rest))
          (execute-log fails now s db laws v.written)

  execute_all-Evolves :
      (last : Time) (ss : List (Faults × Time × Statement)) (db start : Db)
      → KeepsTime d
      → IsTimely last ss
      → LogReach (log_of start) (log_of db)
      → IsChronicle last db
      → LogReach (log_of start) (log_of (execute_all ss db))
        × IsLog (log_of (execute_all ss db))
        × All Written (execute_all ss db).rows
  unfolding execute_all
  execute_all-Evolves last [] db start laws h r v = (r, v.log, v.written)
  execute_all-Evolves last ((fails, now, s) ∷ rest) db start laws h r v =
      let step = execute-Evolves fails last now s db laws h.0 v in
      execute_all-Evolves now rest (execute fails now s db) start laws h.1
        (LogReach-trans r step.reach) step.ordered

  -- What a query without faults shows of the rows that it selects.
  shown :
      (now : Time) (rs : List Row)
      → scan_rows (λ c. false) now rs ≡ ok (reverse (map (read_row now) rs))
  unfolding scan_rows
  shown now rs = refl

  recent-IsLog :
      (room canonical : Text) (limit : ℕ) (now : Time) (db : Db)
      → KeepsTime d
      → IsLog (log_of db)
      → All Written db.rows
      → normalize_room room ≡ ok canonical
      → get_recent_messages_in_room (λ c. false) now room limit db
        ≡ ok (log_recent canonical limit (log_of db))
  unfolding get_recent_messages_in_room log_recent select_recent read_row
  recent-IsLog room canonical limit now db laws v ws h =
      let in_room = λ (m : Message). m.room == canonical in
      let of_room : List Row = keep (λ r. r.room == canonical) db.rows in
      let written = All-keep Written (λ r. r.room == canonical) db.rows ws in
      let kept : map held of_room ≡ keep in_room (log_of db) = map-keep held in_room db.rows in
      let sorted =
        newest_first-IsLog of_room laws written
          (subst IsLog (sym kept) (IsLog-keep in_room (log_of db) v)) in
      rw (h, get_recent_messages_in_room, sorted)
        (shown now (take limit of_room)
          ∙ ap (λ ms. ok (reverse ms))
              (map-read_row now (take limit of_room) laws (All-take Written limit of_room written)
                ∙ map-take held limit of_room
                ∙ ap (take limit) kept))

  recent-answered :
      (room : Text) (limit : ℕ) (now : Time) (db : Db)
      → KeepsTime d
      → IsLog (log_of db)
      → All Written db.rows
      → get_recent_messages_in_room (λ c. false) now room limit db
        ≡ answered bad_room (normalize_room room) (λ c. log_recent c limit (log_of db))
  unfolding get_recent_messages_in_room
  recent-answered room limit now db laws v ws = elim (Result-cases (normalize_room room)) [
    | inr (e, h) ↦ rw (h, get_recent_messages_in_room) refl
    | inl (canonical, h) ↦ recent-IsLog room canonical limit now db laws v ws h ∙ rw (h) refl
  ]

  -- Whatever statements run on a new database while the clock does not go back, and whichever calls
  -- of the driver fail, its messages are exactly the entries of the log after the same statements, as
  -- far as they were carried out; the log has only grown at its end and lost its oldest entries; and
  -- the query for the recent messages, when it does not fail, gives what the log gives: the last
  -- entries of the room in chronological order, at whatever time it runs, and the error of the name of
  -- a room that has none.
  pub execute_all-refines :
      (ss : List (Faults × Time × Statement))
      → KeepsTime d
      → IsTimely 0 ss
      → (state_of (execute_all ss fresh) ≡ log_execute_all sqlite_clock (steps_of ss) empty_log)
        × LogReach [] (log_of (execute_all ss fresh))
        × ((room : Text) (limit : ℕ) (now : Time)
            → get_recent_messages_in_room (λ c. false) now room limit (execute_all ss fresh)
              ≡ answered bad_room
                  (normalize_room room)
                  (λ c. log_recent c limit (log_of (execute_all ss fresh))))
  execute_all-refines ss laws h =
      let starts : IsChronicle 0 fresh = record { log = tt; ids = tt; past = tt; written = tt } in
      let ends = execute_all-Evolves 0 ss fresh fresh laws h here starts in
      (
        execute_all-log 0 ss fresh laws h starts,
        ends.0,
        λ room limit now. recent-answered room limit now (execute_all ss fresh) laws ends.1 ends.2,
      )
