-- ===== src/Db/Sqlite/Clock.antt =====
-- The rows of backend/db/database.go and their times: a table in the order of its clock.
use chatster.Prelude.{
  All, Bool, Bool-cases, List, Option, [], ap, arith, inl, inr, keep, map, none, refl, some, subst,
  suc, sym, take, zero, ℕ, ◌+◌, ◌<◌, ◌∙◌, ◌∷◌, ◌≡◌, ◌≤◌,
}
use chatster.Db.Room.Canonical.{IsRoom}
use chatster.Db.Rows.{Driver, Message, Row, Time}
use chatster.Db.Log.{IsLog, Log, LogReach, appends, at_most_later, below_higher, here, next}
use chatster.Db.Sqlite.{
  Db, Faults, exec, insert_message, last_insert_id, parse_msg_timestamp, prepare, read_row,
}

-- What is relied on of the driver: a time that is bound is parsed again as it was, and `julianday`
-- does not exchange two times, and reads a time in RFC 3339 as it reads the same time when bound.
pub record KeepsTime (d : Driver) : Type 0 where
  pub parses : (t : Time) → parse_msg_timestamp ⦃d = d⦄ (d.bind_time t) ≡ some t
  pub formats : (t : Time) → d.julianday (d.format_utc t) ≡ d.julianday (d.bind_time t)
  pub monotone : (t t' : Time) → t ≤ t' → d.julianday (d.bind_time t) ≤ d.julianday (d.bind_time t')

pub map-take {ℓ κ} :
    {A : Type ℓ} {B : Type κ} (f : A → B) (n : ℕ) (xs : List A)
    → map f (take n xs) ≡ take n (map f xs)
map-take f zero xs = refl
map-take f (suc n) [] = refl
map-take f (suc n) (x ∷ xs) = ap (◌∷◌ (f x)) (map-take f n xs)

pub map-keep {ℓ κ} :
    {A : Type ℓ} {B : Type κ} (f : A → B) (q : B → Bool) (xs : List A)
    → map f (keep (λ x. q (f x)) xs) ≡ keep q (map f xs)
unfolding keep
map-keep f q [] = refl
map-keep f q (x ∷ xs) = elim (Bool-cases (q (f x))) [
  | inl e ↦ rw e (ap (◌∷◌ (f x)) (map-keep f q xs))
  | inr e ↦ rw e (map-keep f q xs)
]

module _ ⦃d : Driver⦄ where
  -- The message that a row holds.
  abbrev pub held : Row → Message
  held r = read_row 0 r

  abbrev pub log_of : Db → Log
  log_of db = map held db.rows

  abbrev pub Written : Row → Type 0
  Written r = r.stored ≡ d.bind_time (held r).timestamp

  pub record IsChronicle (now : Time) (db : Db) : Type 0 where
    pub log : IsLog (log_of db)
    pub ids : All (λ m. m.id < db.next_id) (log_of db)
    pub past : All (λ m. m.timestamp ≤ now) (log_of db)
    pub written : All Written db.rows

  pub record Evolves (now : Time) (db db' : Db) : Type 0 where
    pub reach : LogReach (log_of db) (log_of db')
    pub ordered : IsChronicle now db'

  pub rests : (last now : Time) (db : Db) → last ≤ now → IsChronicle last db → Evolves now db db
  rests last now db h v = record {
    reach = here;
    ordered = record {
      log = v.log;
      ids = v.ids;
      past = at_most_later last now (log_of db) h v.past;
      written = v.written;
    };
  }

  -- The time at which a written row is read does not matter.
  pub read_row-held : (now : Time) (r : Row) → KeepsTime d → Written r → read_row now r ≡ held r
  unfolding read_row
  read_row-held now r laws w =
      let p = ap parse_msg_timestamp w ∙ laws.parses (held r).timestamp in
      let at = λ (o : Option Time) (t : Time). elim o as (λ _. Time) [ some s ↦ s | none ↦ t ] in
      ap (λ t. record (held r) { timestamp = t }) (ap (λ o. at o now) p ∙ sym (ap (λ o. at o 0) p))

  unfoldable pub new_row : Time → ℕ → Message → Row
  new_row now id m = record {
    id = id;
    room = m.room;
    user_id = m.user_id;
    username = m.username;
    content = m.content;
    msg_type = m.msg_type;
    stored = d.bind_time now;
  }

  pub held-new_row :
      (now : Time) (id : ℕ) (m : Message)
      → KeepsTime d
      → held (new_row now id m) ≡ record m { id = id; timestamp = now }
  unfolding read_row new_row
  held-new_row now id m laws = rw (laws.parses now) refl

  pub insert_message-Evolves :
      (fails : Faults) (last now : Time) (m : Message) (db : Db)
      → KeepsTime d
      → last ≤ now
      → IsRoom m.room
      → IsChronicle last db
      → Evolves now db (insert_message fails now m db).1
  unfolding insert_message new_row
  insert_message-Evolves fails last now m db laws h room v = elim (Bool-cases (fails prepare)) [
    | inl e ↦ rw e (rests last now db h v)
    | inr e ↦ elim (Bool-cases (fails exec)) [
      | inl k ↦ rw (e, k) (rests last now db h v)
      | inr k ↦ elim (Bool-cases (fails last_insert_id)) [
        | inl l ↦ rw (e, k, l) inserted
        | inr l ↦ rw (e, k, l) inserted
      ]
    ]
  ]
    where
      stored : Message
      stored = record m { id = db.next_id; timestamp = now }

      later : All (λ (x : Message). x.timestamp ≤ now) (log_of db)
      later = at_most_later last now (log_of db) h v.past

      same : held (new_row now db.next_id m) ≡ stored
      same = held-new_row now db.next_id m laws

      inserted :
          Evolves now db
            (record db { rows = new_row now db.next_id m ∷ db.rows; next_id = db.next_id + 1 })
      inserted = record {
        reach =
            subst (λ x. LogReach (log_of db) (x ∷ log_of db)) (sym same)
              (next here (appends stored (record { room = room; greater = v.ids; later = later })));
        ordered = record {
          log = subst (λ x. IsLog (x ∷ log_of db)) (sym same) (v.ids, later, v.log);
          ids =
              subst (λ (x : Message). All (λ (y : Message). y.id < db.next_id + 1) (x ∷ log_of db))
                (sym same)
                (
                  omega arith,
                  below_higher db.next_id (db.next_id + 1) (log_of db) (omega arith) v.ids,
                );
          past =
              subst (λ (x : Message). All (λ (y : Message). y.timestamp ≤ now) (x ∷ log_of db))
                (sym same) (omega arith, later);
          written = (ap (λ (x : Message). d.bind_time x.timestamp) (sym same), v.written);
        };
      }
