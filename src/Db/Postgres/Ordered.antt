-- ===== src/Db/Postgres/Ordered.antt =====
-- The rows of backend/db/postgres.go under a clock that does not go back: one statement.
use chatster.Prelude.{
  All, All-keep, Bool, Bool-cases, List, [], arith, false, inl, inr, keep, length, ltb, not, refl,
  subst, sym, ℕ, ◌+◌, ◌<◌, ◌∷◌, ◌≡◌, ◌≤◌,
}
use chatster.Text.{Text}
use chatster.Db.Room.Canonical.{IsRoom}
use chatster.Db.Rows.{Message, Time}
use chatster.Db.Log.{
  Falling, IsLog, IsLog-keep, Log, LogReach, appends, at_most_later, below_higher, forgets, here,
  keep-Falling, next,
}
use chatster.Db.Postgres.{
  PgFaults, Postgres, micros, pg_insert, pg_prune_audit, pg_prune_messages,
  pg_save_moderation_event, refused, reply_lost,
}

pub micros_le : (a b : Time) → a ≤ b → micros a ≤ micros b
unfolding micros
micros_le a b h = omega arith

-- The table at a time of the server's clock.
pub record IsOrdered (now : Time) (db : Postgres) : Type 0 where
  pub log : IsLog db.rows
  pub ids : All (λ m. m.id < db.next_id) db.rows
  pub past : All (λ m. m.timestamp ≤ micros now) db.rows

-- A step of the log, or none.
pub record Follows (now : Time) (db db' : Postgres) : Type 0 where
  pub reach : LogReach db.rows db'.rows
  pub ordered : IsOrdered now db'

pub stays : (last now : Time) (db : Postgres) → last ≤ now → IsOrdered last db → Follows now db db
stays last now db h v = record {
  reach = here;
  ordered = record {
    log = v.log;
    ids = v.ids;
    past = at_most_later (micros last) (micros now) db.rows (micros_le last now h) v.past;
  };
}

pub pg_insert-Follows :
    (fails : PgFaults) (last now : Time) (skipped : ℕ) (m : Message) (db : Postgres)
    → last ≤ now
    → IsRoom m.room
    → IsOrdered last db
    → Follows now db (pg_insert fails now skipped m db).1
unfolding pg_insert
pg_insert-Follows fails last now skipped m db h room v = elim (Bool-cases (fails refused)) [
  | inl e ↦ rw e (stays last now db h v)
  | inr e ↦ elim (Bool-cases (fails reply_lost)) [
    | inl k ↦ rw (e, k) inserted
    | inr k ↦ rw (e, k) inserted
  ]
]
  where
    greater : All (λ (x : Message). x.id < db.next_id + skipped) db.rows
    greater = below_higher db.next_id (db.next_id + skipped) db.rows (omega arith) v.ids

    later : All (λ (x : Message). x.timestamp ≤ micros now) db.rows
    later = at_most_later (micros last) (micros now) db.rows (micros_le last now h) v.past

    stored : Message
    stored = record m { id = db.next_id + skipped; timestamp = micros now }

    inserted :
        Follows now db (record db { rows = stored ∷ db.rows; next_id = db.next_id + skipped + 1 })
    inserted = record {
      reach = next here (appends stored (record { room = room; greater = greater; later = later }));
      ordered = record {
        log = (greater, later, v.log);
        ids = (
          omega arith,
          below_higher db.next_id (db.next_id + skipped + 1) db.rows (omega arith) v.ids,
        );
        past = (omega arith, later);
      };
    }

not_older : Time → Message → Bool
not_older cutoff m = not (ltb m.timestamp (micros cutoff))

older_rest :
    (cutoff : Time) (m : Message) (ms : List Message)
    → All (λ x. x.timestamp ≤ m.timestamp) ms
    → not_older cutoff m ≡ false
    → All (λ x. not_older cutoff x ≡ false) ms
unfolding not_older
older_rest cutoff m [] v h = tt
older_rest cutoff m (x ∷ ms) v h = let p = v.0 in (ground arith, older_rest cutoff m ms v.1 h)

IsLog-Falling : (cutoff : Time) (log : Log) → IsLog log → Falling (not_older cutoff) log
IsLog-Falling cutoff [] v = tt
IsLog-Falling cutoff (m ∷ log) v = (older_rest cutoff m log v.1, IsLog-Falling cutoff log v.2)

pub pg_prune_messages-Follows :
    (fails : PgFaults) (last now cutoff : Time) (db : Postgres)
    → last ≤ now
    → IsOrdered last db
    → Follows now db (pg_prune_messages fails cutoff db).1
unfolding pg_prune_messages not_older
pg_prune_messages-Follows fails last now cutoff db h v = elim (Bool-cases (fails refused)) [
  | inl e ↦ rw e (stays last now db h v)
  | inr e ↦ elim (Bool-cases (fails reply_lost)) [
    | inl k ↦ rw (e, k) pruned
    | inr k ↦ rw (e, k) pruned
  ]
]
  where
    rest : List Message
    rest = keep (not_older cutoff) db.rows

    pruned : Follows now db (record db { rows = rest })
    pruned = record {
      reach =
          subst (LogReach db.rows)
            (sym (keep-Falling (not_older cutoff) db.rows (IsLog-Falling cutoff db.rows v.log)))
            (next here (forgets (length rest)));
      ordered = record {
        log = IsLog-keep (not_older cutoff) db.rows v.log;
        ids = All-keep (λ m. m.id < db.next_id) (not_older cutoff) db.rows v.ids;
        past =
            All-keep (λ m. m.timestamp ≤ micros now) (not_older cutoff) db.rows
              (at_most_later (micros last) (micros now) db.rows (micros_le last now h) v.past);
      };
    }

pub same_rows :
    (last now : Time) (db db' : Postgres)
    → last ≤ now
    → db'.rows ≡ db.rows
    → db'.next_id ≡ db.next_id
    → IsOrdered last db
    → Follows now db db'
same_rows last now db db' h rows ids v =
    let kept = stays last now db h v in
    record {
      reach = subst (LogReach db.rows) (sym rows) here;
      ordered = record {
        log = subst IsLog (sym rows) v.log;
        ids = rw (rows, ids) v.ids;
        past = rw rows kept.ordered.past;
      };
    }

pub pg_save_moderation_event-rows :
    (fails : PgFaults) (now : Time) (skipped : ℕ) (a b c e f : Text) (db : Postgres)
    → ((pg_save_moderation_event fails now skipped a b c e f db).1.rows ≡ db.rows)
      × ((pg_save_moderation_event fails now skipped a b c e f db).1.next_id ≡ db.next_id)
unfolding pg_save_moderation_event
pg_save_moderation_event-rows fails now skipped a b c e f db = elim (Bool-cases (fails refused)) [
  | inl r ↦ rw r (refl, refl)
  | inr r ↦ elim (Bool-cases (fails reply_lost)) [
    | inl l ↦ rw (r, l) (refl, refl)
    | inr l ↦ rw (r, l) (refl, refl)
  ]
]

pub pg_prune_audit-rows :
    (fails : PgFaults) (cutoff : Time) (db : Postgres)
    → ((pg_prune_audit fails cutoff db).1.rows ≡ db.rows)
      × ((pg_prune_audit fails cutoff db).1.next_id ≡ db.next_id)
unfolding pg_prune_audit
pg_prune_audit-rows fails cutoff db = elim (Bool-cases (fails refused)) [
  | inl r ↦ rw r (refl, refl)
  | inr r ↦ elim (Bool-cases (fails reply_lost)) [
    | inl l ↦ rw (r, l) (refl, refl)
    | inr l ↦ rw (r, l) (refl, refl)
  ]
]
