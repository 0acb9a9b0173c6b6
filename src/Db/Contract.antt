-- ===== src/Db/Contract.antt =====
-- What every statement of backend/db must do to the messages, whatever the backend: the log after it,
-- from the statement, its time and whether it was carried out. How the backend keeps a time and
-- compares it with a cutoff is an argument.
use chatster.Prelude.{
  Bool, List, Result, [], err, false, if◌then◌else◌, keep, not, ok, refl, sym, true, ℕ, ◌+◌, ◌==◌,
  ◌∷◌, ◌≡◌, nat_eq, list_eq,
}
use chatster.Text.{Text, Unicode, codes}
use chatster.Db.Room.{RoomError, normalize_room}
use chatster.Db.Rows.{Time}
use chatster.Db.Log.{Log}
use chatster.Db.Sqlite.Invariant.{Statement, prune_audit, prune_messages, save_audit, save_message}

pub record Clockwork : Type 0 where
  pub keeps : Time → Time
  -- whether a time that is kept is before a cutoff
  pub precedes : Time → Time → Bool

pub record LogState : Type 0 where
  pub entries : Log
  pub next_key : ℕ

abbrev pub empty_log : LogState
empty_log = record { entries = []; next_key = 1 }

-- The answer to a query for a room: what the log gives for its name, or the error of the name.
abbrev pub answered :
    {E : Type 0} → (RoomError → E) → Result RoomError Text → (Text → Log) → Result E Log
answered bad (err e) entries = err (bad e)
answered bad (ok canonical) entries = ok (entries canonical)

module _ ⦃u : Unicode⦄ where
  -- A statement that is carried out; `skipped` is the gap before the key of an entry.
  unfoldable pub log_execute : Clockwork → Bool → Time → ℕ → Statement → LogState → LogState
  log_execute c false now skipped s st = st
  log_execute c true now skipped (save_message room user name content msg_type) st =
      elim (normalize_room room) [
        | err e ↦ st
        | ok canonical ↦ if msg_type == codes "username" then st else record {
          entries =
              record {
                id = st.next_key + skipped;
                user_id = user;
                username = name;
                content = content;
                msg_type = msg_type;
                room = canonical;
                timestamp = c.keeps now;
              }
              ∷ st.entries;
          next_key = st.next_key + skipped + 1;
        }
      ]
  log_execute c true now skipped (save_audit session user name reason content) st = st
  log_execute c true now skipped (prune_messages cutoff) st = record st {
    entries = keep (λ m. not (c.precedes m.timestamp cutoff)) st.entries;
  }
  log_execute c true now skipped (prune_audit cutoff) st = st

  unfoldable pub log_execute_all :
      Clockwork → List (Bool × Time × ℕ × Statement) → LogState → LogState
  log_execute_all c [] st = st
  log_execute_all c ((carried, now, skipped, s) ∷ rest) st =
      log_execute_all c rest (log_execute c carried now skipped s st)

  -- A statement that the log ignores.
  pub ignored :
      (c : Clockwork) (carried : Bool) (now : Time) (skipped : ℕ) (s : Statement) (st : LogState)
      → log_execute c true now skipped s st ≡ st
      → st ≡ log_execute c carried now skipped s st
  unfolding log_execute
  ignored c true now skipped s st h = sym h
  ignored c false now skipped s st h = refl

  -- A statement that takes effect when it is carried out.
  pub if_carried :
      (c : Clockwork) (carried : Bool) (now : Time) (skipped : ℕ) (s : Statement)
      (st after : LogState)
      → log_execute c true now skipped s st ≡ after
      → (if carried then after else st) ≡ log_execute c carried now skipped s st
  unfolding log_execute
  if_carried c true now skipped s st after h = sym h
  if_carried c false now skipped s st after h = refl
