-- ===== src/Db/Postgres/Refinement.antt =====
-- The messages of backend/db/postgres.go as a log.
use chatster.Prelude.{
  All, Bool, Bool-cases, List, Result-cases, [], ap, arith, false, inl, inr, keep, refl, ℕ, ◌&&◌,
  ◌<◌, ◌==◌, ◌∙◌, ◌∷◌, ◌≡◌, ◌≤◌, nat_eq, list_eq,
}
use chatster.Text.{Text, Unicode, codes}
use chatster.Db.Room.{normalize_room}
use chatster.Db.Room.Canonical.{normalize_room-IsRoom}
use chatster.Db.Rows.{Message, Time}
use chatster.Db.Log.{IsLog, IsLog-keep, LogReach, LogReach-trans, here, log_before, log_recent}
use chatster.Db.Sqlite.{unsaved}
use chatster.Db.Sqlite.Invariant.{Statement, prune_audit, prune_messages, save_audit, save_message}
use chatster.Db.Postgres.{
  PgFaults, Postgres, bad_room_name, is_before, latest_first, micros, new_database, pg_get_before,
  pg_get_recent, pg_save_message, place,
}
use chatster.Db.Contract.{answered, empty_log, log_execute_all}
use chatster.Db.Postgres.Steps.{
  pg_clock, pg_execute, pg_execute_all, pg_execute_all-log, pg_state, pg_steps,
}
use chatster.Db.Postgres.Ordered.{
  Follows, IsOrdered, pg_insert-Follows, pg_prune_audit-rows, pg_prune_messages-Follows,
  pg_save_moderation_event-rows, same_rows, stays,
}

-- Rows that are in the order of the log stay where they are.
place-first :
    (m : Message) (ms : List Message)
    → All (λ x. x.id < m.id) ms
    → All (λ x. x.timestamp ≤ m.timestamp) ms
    → place m ms ≡ m ∷ ms
unfolding place
place-first m [] h k = refl
place-first m (x ∷ xs) h k =
    let p = h.0 in
    let t = k.0 in let newer : is_before x.timestamp x.id m ≡ false = ground arith in rw newer refl

latest_first-IsLog : (ms : List Message) → IsLog ms → latest_first ms ≡ ms
unfolding latest_first
latest_first-IsLog [] v = refl
latest_first-IsLog (m ∷ ms) v = ap (place m) (latest_first-IsLog ms v.2) ∙ place-first m ms v.0 v.1

abbrev pub no_fault : PgFaults
no_fault c = false

module _ ⦃u : Unicode⦄ where
  pg_save_message-Follows :
      (fails : PgFaults) (last now : Time) (skipped : ℕ) (room user name content msg_type : Text)
      (db : Postgres)
      → last ≤ now
      → IsOrdered last db
      → Follows now db (pg_save_message fails now skipped room user name content msg_type db).1
  unfolding pg_save_message
  pg_save_message-Follows fails last now skipped room user name content msg_type db h v =
      elim (Result-cases (normalize_room room)) [
        | inr (e, k) ↦ rw (k, pg_save_message) (stays last now db h v)
        | inl (r, k) ↦ elim (Bool-cases (msg_type == codes "username")) [
          | inl t ↦ rw (k, pg_save_message, t) (stays last now db h v)
          | inr t ↦
              rw (k, pg_save_message, t)
                (pg_insert-Follows fails last now skipped (unsaved now r user name content msg_type)
                  db h (normalize_room-IsRoom room k) v)
        ]
      ]

  pg_execute-Follows :
      (fails : PgFaults) (last now : Time) (skipped : ℕ) (s : Statement) (db : Postgres)
      → last ≤ now
      → IsOrdered last db
      → Follows now db (pg_execute fails now skipped s db)
  unfolding pg_execute
  pg_execute-Follows fails last now skipped (save_message a b c e f) db h v =
      pg_save_message-Follows fails last now skipped a b c e f db h v
  pg_execute-Follows fails last now skipped (save_audit a b c e f) db h v =
      let same = pg_save_moderation_event-rows fails now skipped a b c e f db in
      same_rows last now db _ h same.0 same.1 v
  pg_execute-Follows fails last now skipped (prune_messages t) db h v =
      pg_prune_messages-Follows fails last now t db h v
  pg_execute-Follows fails last now skipped (prune_audit t) db h v =
      let same = pg_prune_audit-rows fails t db in same_rows last now db _ h same.0 same.1 v

  -- The clock does not go back.
  abbrev pub Timely : Time → List (PgFaults × Time × ℕ × Statement) → Type 0
  Timely last [] = Unit
  Timely last ((fails, now, skipped, s) ∷ rest) = (last ≤ now) × Timely now rest

  pg_execute_all-Follows :
      (last : Time) (ss : List (PgFaults × Time × ℕ × Statement)) (db start : Postgres)
      → Timely last ss
      → LogReach start.rows db.rows
      → IsOrdered last db
      → LogReach start.rows (pg_execute_all ss db).rows × IsLog (pg_execute_all ss db).rows
  unfolding pg_execute_all
  pg_execute_all-Follows last [] db start h r v = (r, v.log)
  pg_execute_all-Follows last ((fails, now, skipped, s) ∷ rest) db start h r v =
      let step = pg_execute-Follows fails last now skipped s db h.0 v in
      pg_execute_all-Follows now rest (pg_execute fails now skipped s db) start h.1
        (LogReach-trans r step.reach) step.ordered

  -- The queries on a table in the order of the log.
  abbrev pub AnswersAsLog : Postgres → Type 0
  AnswersAsLog db =
      (room : Text) (limit : ℕ)
      → (pg_get_recent no_fault room limit db
          ≡ answered bad_room_name (normalize_room room) (λ c. log_recent c limit db.rows))
        × ((before : Time) (before_id : ℕ)
            → pg_get_before no_fault room before before_id limit db
              ≡ answered bad_room_name (normalize_room room)
                  (λ c. log_before c (micros before) before_id limit db.rows))

  answers : (db : Postgres) → IsLog db.rows → AnswersAsLog db
  unfolding pg_get_recent pg_get_before log_recent log_before
  answers db v room limit = elim (Result-cases (normalize_room room)) [
    | inr (e, h) ↦ (rw (h, pg_get_recent) refl, λ before before_id. rw (h, pg_get_before) refl)
    | inl (canonical, h) ↦ (
      rw (h, pg_get_recent, sorted (λ m. m.room == canonical)) refl,
      λ before before_id.
          rw
            (
              h,
              pg_get_before,
              sorted (λ m. m.room == canonical && is_before (micros before) before_id m),
            )
            refl,
    )
  ]
    where
      sorted : (q : Message → Bool) → latest_first (keep q db.rows) ≡ keep q db.rows
      sorted q = latest_first-IsLog (keep q db.rows) (IsLog-keep q db.rows v)

  -- Whatever statements run on a new database while its clock does not go back, and whichever of them
  -- are refused or lose their reply, its messages are exactly the entries of the log after the same
  -- statements, as far as they were not refused, with its times in microseconds; the log has only
  -- grown at its end and lost its oldest entries; and each query of the database, when it does not
  -- fail, gives what the log gives: the last entries of the room, or the last ones before the position,
  -- in chronological order, and the error of the name of a room that has none.
  pub pg_execute_all-refines :
      (ss : List (PgFaults × Time × ℕ × Statement))
      → Timely 0 ss
      → (pg_state (pg_execute_all ss new_database)
          ≡ log_execute_all pg_clock (pg_steps ss) empty_log)
        × LogReach [] (pg_execute_all ss new_database).rows
        × AnswersAsLog (pg_execute_all ss new_database)
  pg_execute_all-refines ss h =
      let ends =
        pg_execute_all-Follows 0 ss new_database new_database h here
          (record { log = tt; ids = tt; past = tt }) in
      (pg_execute_all-log ss new_database, ends.0, answers (pg_execute_all ss new_database) ends.1)
