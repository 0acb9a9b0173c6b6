-- ===== src/Db/Postgres/Steps.antt =====
-- Sequences of statements of backend/db/postgres.go, and what each of them does to the log.
use chatster.Prelude.{
  Bool, Bool-cases, List, Result-cases, [], ap, false, if◌then◌else◌, inl, inr, ltb, not, refl,
  true, ℕ, ◌==◌, ◌∙◌, ◌∷◌, ◌≡◌, nat_eq, list_eq,
}
use chatster.Text.{Text, Unicode, codes}
use chatster.Db.Room.{normalize_room}
use chatster.Db.Rows.{Time}
use chatster.Db.Contract.{Clockwork, LogState, ignored, log_execute, log_execute_all}
use chatster.Db.Sqlite.Invariant.{Statement, prune_audit, prune_messages, save_audit, save_message}
use chatster.Db.Postgres.{
  PgFaults, Postgres, carry_out, micros, pg_insert, pg_prune_audit, pg_prune_messages,
  pg_save_message, pg_save_moderation_event, refused, reply_lost,
}

-- A time is kept in microseconds, and a cutoff is cut off to microseconds.
abbrev pub pg_clock : Clockwork
pg_clock = record { keeps = micros; precedes = λ t cutoff. ltb t (micros cutoff) }

abbrev pub pg_state : Postgres → LogState
pg_state db = record { entries = db.rows; next_key = db.next_id }

-- The statements, each with whether it is carried out: it is not refused.
abbrev pub pg_steps : List (PgFaults × Time × ℕ × Statement) → List (Bool × Time × ℕ × Statement)
pg_steps [] = []
pg_steps ((fails, now, skipped, s) ∷ rest) = (not (fails refused), now, skipped, s) ∷ pg_steps rest

module _ ⦃u : Unicode⦄ where
  unfoldable pub pg_execute : PgFaults → Time → ℕ → Statement → Postgres → Postgres
  pg_execute fails now skipped (save_message room user name content msg_type) db =
      (pg_save_message fails now skipped room user name content msg_type db).1
  pg_execute fails now skipped (save_audit session user name reason content) db =
      (pg_save_moderation_event fails now skipped session user name reason content db).1
  pg_execute fails now skipped (prune_messages cutoff) db = (pg_prune_messages fails cutoff db).1
  pg_execute fails now skipped (prune_audit cutoff) db = (pg_prune_audit fails cutoff db).1

  unfoldable pub pg_execute_all : List (PgFaults × Time × ℕ × Statement) → Postgres → Postgres
  pg_execute_all [] db = db
  pg_execute_all ((fails, now, skipped, s) ∷ rest) db =
      pg_execute_all rest (pg_execute fails now skipped s db)

  -- A statement that writes leaves the database as it was, or as it wanted.
  carried :
      {A : Type 0} (fails : PgFaults) (reply : A) (before after : Postgres)
      → (carry_out fails reply before after).1 ≡ (if fails refused then before else after)
  carried fails reply before after = elim (Bool-cases (fails refused)) [
    | inl r ↦ rw r refl
    | inr r ↦ elim (Bool-cases (fails reply_lost)) [
      | inl k ↦ rw (r, k) refl
      | inr k ↦ rw (r, k) refl
    ]
  ]

  if_refused :
      (b : Bool) (before after : Postgres) (now : Time) (skipped : ℕ) (s : Statement)
      → pg_state after ≡ log_execute pg_clock true now skipped s (pg_state before)
      → pg_state (if b then before else after)
        ≡ log_execute pg_clock (not b) now skipped s (pg_state before)
  unfolding log_execute
  if_refused true before after now skipped s h = refl
  if_refused false before after now skipped s h = h

  save_message-log :
      (fails : PgFaults) (now : Time) (skipped : ℕ) (room user name content msg_type : Text)
      (db : Postgres)
      → pg_state (pg_save_message fails now skipped room user name content msg_type db).1
        ≡ log_execute pg_clock
            (not (fails refused))
            now
            skipped
            (save_message room user name content msg_type)
            (pg_state db)
  unfolding pg_save_message log_execute pg_insert
  save_message-log fails now skipped room user name content msg_type db =
      elim (Result-cases (normalize_room room)) [
        | inr (e, k) ↦
            rw (pg_save_message, k)
              (ignored pg_clock (not (fails refused)) now skipped
                (save_message room user name content msg_type) (pg_state db)
                (rw (log_execute, k) refl))
        | inl (r, k) ↦ elim (Bool-cases (msg_type == codes "username")) [
          | inl t ↦
              rw (pg_save_message, k, t)
                (ignored pg_clock (not (fails refused)) now skipped
                  (save_message room user name content msg_type) (pg_state db)
                  (rw (log_execute, k, t) refl))
          | inr t ↦
              rw (pg_save_message, k, t)
                (ap pg_state (carried fails _ db _)
                  ∙ if_refused (fails refused) db _ now skipped
                      (save_message room user name content msg_type) (rw (log_execute, k, t) refl))
        ]
      ]

  pg_execute-log :
      (fails : PgFaults) (now : Time) (skipped : ℕ) (s : Statement) (db : Postgres)
      → pg_state (pg_execute fails now skipped s db)
        ≡ log_execute pg_clock (not (fails refused)) now skipped s (pg_state db)
  unfolding pg_execute pg_prune_messages pg_prune_audit pg_save_moderation_event log_execute
  pg_execute-log fails now skipped (save_message a b c e f) db =
      save_message-log fails now skipped a b c e f db
  pg_execute-log fails now skipped (save_audit a b c e f) db =
      ap pg_state (carried fails _ db _)
      ∙ if_refused (fails refused) db _ now skipped (save_audit a b c e f) refl
  pg_execute-log fails now skipped (prune_messages t) db =
      ap pg_state (carried fails _ db _)
      ∙ if_refused (fails refused) db _ now skipped (prune_messages t) refl
  pg_execute-log fails now skipped (prune_audit t) db =
      ap pg_state (carried fails _ db _)
      ∙ if_refused (fails refused) db _ now skipped (prune_audit t) refl

  pub pg_execute_all-log :
      (ss : List (PgFaults × Time × ℕ × Statement)) (db : Postgres)
      → pg_state (pg_execute_all ss db) ≡ log_execute_all pg_clock (pg_steps ss) (pg_state db)
  unfolding pg_execute_all log_execute_all
  pg_execute_all-log [] db = refl
  pg_execute_all-log ((fails, now, skipped, s) ∷ rest) db =
      pg_execute_all-log rest (pg_execute fails now skipped s db)
      ∙ ap (log_execute_all pg_clock (pg_steps rest)) (pg_execute-log fails now skipped s db)
