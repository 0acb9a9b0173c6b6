-- ===== src/Db/Sqlite/Sound.antt =====
-- When the two tables of backend/db/database.go are sound, and that inserting keeps them so.
use chatster.Prelude.{
  All, Bool, Bool-cases, List, [], arith, inl, inr, keep, length, length-take, refl, ℕ, ◌+◌, ◌<◌,
  ◌∷◌, ◌≡◌, ◌≢◌, ◌≤◌,
}
use chatster.Text.{Text, codes}
use chatster.Db.Room.Canonical.{IsRoom}
use chatster.Db.Rows.{AuditRow, Driver, Message, Row, Time}
use chatster.Db.Sqlite.{
  Db, Faults, exec, fresh, insert_message, last_insert_id, max_audit_preview_runes, prepare,
  save_moderation_event_for_user, truncate_runes,
}
use chatster.Db.Sqlite.Order.{IdFresh, IdsDistinct}

-- Identifiers fall strictly along the table and stay below the next one.
abbrev pub RowsBelow : ℕ → List Row → Type 0
RowsBelow n [] = Unit
RowsBelow n (r ∷ rs) = (r.id < n) × (0 < r.id) × RowsBelow r.id rs

abbrev pub AuditBelow : ℕ → List AuditRow → Type 0
AuditBelow n [] = Unit
AuditBelow n (r ∷ rs) = (r.id < n) × (0 < r.id) × AuditBelow r.id rs

module _ ⦃d : Driver⦄ where
  -- A stored message: its room is canonical, its type is durable, and its time was bound here.
  pub record IsStored (r : Row) : Type 0 where
    pub canonical : IsRoom r.room
    pub durable : r.msg_type ≢ codes "username"
    pub written_at : Time
    pub written : r.stored ≡ d.bind_time written_at

  abbrev pub IsPreview : AuditRow → Type 0
  IsPreview r = length r.content_preview ≤ max_audit_preview_runes

  pub record IsSound (db : Db) : Type 0 where
    pub ids : RowsBelow db.next_id db.rows
    pub positive : 0 < db.next_id
    pub stored : All IsStored db.rows
    pub audit_ids : AuditBelow db.next_audit_id db.audit
    pub audit_positive : 0 < db.next_audit_id
    pub previews : All IsPreview db.audit

RowsBelow-mono : (m n : ℕ) (rs : List Row) → m ≤ n → RowsBelow m rs → RowsBelow n rs
RowsBelow-mono m n [] h b = tt
RowsBelow-mono m n (r ∷ rs) h b = (omega arith, b.1, b.2)

AuditBelow-mono : (m n : ℕ) (rs : List AuditRow) → m ≤ n → AuditBelow m rs → AuditBelow n rs
AuditBelow-mono m n [] h b = tt
AuditBelow-mono m n (r ∷ rs) h b = (omega arith, b.1, b.2)

pub RowsBelow-keep :
    (q : Row → Bool) (n : ℕ) (rs : List Row) → RowsBelow n rs → RowsBelow n (keep q rs)
unfolding keep
RowsBelow-keep q n [] b = tt
RowsBelow-keep q n (r ∷ rs) b = elim (Bool-cases (q r)) [
  | inl e ↦ rw e (b.0, b.1, RowsBelow-keep q r.id rs b.2)
  | inr e ↦ rw e (RowsBelow-mono r.id n (keep q rs) (omega arith) (RowsBelow-keep q r.id rs b.2))
]

pub AuditBelow-keep :
    (q : AuditRow → Bool) (n : ℕ) (rs : List AuditRow) → AuditBelow n rs → AuditBelow n (keep q rs)
unfolding keep
AuditBelow-keep q n [] b = tt
AuditBelow-keep q n (r ∷ rs) b = elim (Bool-cases (q r)) [
  | inl e ↦ rw e (b.0, b.1, AuditBelow-keep q r.id rs b.2)
  | inr e ↦ rw e (AuditBelow-mono r.id n (keep q rs) (omega arith) (AuditBelow-keep q r.id rs b.2))
]

IdFresh-of_RowsBelow : (n m : ℕ) (rs : List Row) → RowsBelow n rs → n ≤ m → IdFresh m rs
IdFresh-of_RowsBelow n m [] b h = tt
IdFresh-of_RowsBelow n m (r ∷ rs) b h =
    (omega arith, IdFresh-of_RowsBelow r.id m rs b.2 (omega arith))

pub IdsDistinct-of_RowsBelow : (n : ℕ) (rs : List Row) → RowsBelow n rs → IdsDistinct rs
IdsDistinct-of_RowsBelow n [] b = tt
IdsDistinct-of_RowsBelow n (r ∷ rs) b =
    (IdFresh-of_RowsBelow r.id r.id rs b.2 (omega arith), IdsDistinct-of_RowsBelow r.id rs b.2)

pub truncate_runes_bound :
    (s : Text) (limit : ℕ) → 0 < limit → length (truncate_runes s limit) ≤ limit
unfolding truncate_runes
truncate_runes_bound s limit h = ground (arith, length-take limit s)

module _ ⦃d : Driver⦄ where
  pub fresh-IsSound : IsSound fresh
  fresh-IsSound = record {
    ids = tt;
    positive = omega arith;
    stored = tt;
    audit_ids = tt;
    audit_positive = omega arith;
    previews = tt;
  }

  pub insert_message-IsSound :
      (fails : Faults) (now : Time) (m : Message) (db : Db)
      → IsRoom m.room
      → m.msg_type ≢ codes "username"
      → IsSound db
      → IsSound (insert_message fails now m db).1
  unfolding insert_message
  insert_message-IsSound fails now m db room durable v = elim (Bool-cases (fails prepare)) [
    | inl e ↦ rw e v
    | inr e ↦ elim (Bool-cases (fails exec)) [
      | inl k ↦ rw (e, k) v
      | inr k ↦ elim (Bool-cases (fails last_insert_id)) [
        | inl l ↦ rw (e, k, l) inserted
        | inr l ↦ rw (e, k, l) inserted
      ]
    ]
  ]
    where
      inserted : IsSound (record db {
        rows =
            record {
              id = db.next_id;
              room = m.room;
              user_id = m.user_id;
              username = m.username;
              content = m.content;
              msg_type = m.msg_type;
              stored = d.bind_time now;
            }
            ∷ db.rows;
        next_id = db.next_id + 1;
      })
      inserted = record {
        ids = (omega arith, v.positive, v.ids);
        positive = omega arith;
        stored = (
          record { canonical = room; durable = durable; written_at = now; written = refl },
          v.stored,
        );
        audit_ids = v.audit_ids;
        audit_positive = v.audit_positive;
        previews = v.previews;
      }

  pub save_moderation_event-IsSound :
      (fails : Faults) (now : Time) (session user name reason content : Text) (db : Db)
      → IsSound db
      → IsSound (save_moderation_event_for_user fails now session user name reason content db).1
  unfolding save_moderation_event_for_user
  save_moderation_event-IsSound fails now session user name reason content db v =
      elim (Bool-cases (fails prepare)) [
        | inl e ↦ rw e v
        | inr e ↦ elim (Bool-cases (fails exec)) [
          | inl k ↦ rw (e, k) v
          | inr k ↦ elim (Bool-cases (fails last_insert_id)) [
            | inl l ↦ rw (e, k, l) inserted
            | inr l ↦ rw (e, k, l) inserted
          ]
        ]
      ]
    where
      inserted : IsSound (record db {
        audit =
            record {
              id = db.next_audit_id;
              session_id = session;
              user_id = user;
              username = name;
              reason = reason;
              content_preview = truncate_runes content max_audit_preview_runes;
              content_length = length content;
              stored = d.bind_time now;
            }
            ∷ db.audit;
        next_audit_id = db.next_audit_id + 1;
      })
      inserted = record {
        ids = v.ids;
        positive = v.positive;
        stored = v.stored;
        audit_ids = (omega arith, v.audit_positive, v.audit_ids);
        audit_positive = omega arith;
        previews = (truncate_runes_bound content max_audit_preview_runes (omega arith), v.previews);
      }
