-- ===== src/Db/Sqlite/Chronicle.antt =====
-- The rows of backend/db/database.go under a clock that does not go back: one statement.
use chatster.Prelude.{
  All, Bool, Bool-cases, List, [], arith, false, inl, inr, keep, length, ltb, map, not, refl, subst,
  sym, take, ℕ, ◌<◌, ◌∷◌, ◌≡◌, ◌≤◌,
}
use chatster.Text.{Text}
use chatster.Db.Rows.{Driver, Row, Time}
use chatster.Db.Log.{
  All-take, Falling, IsLog, IsLog-take, LogReach, at_most_later, forgets, here, keep-Falling, next,
}
use chatster.Db.Sqlite.{
  Db, Faults, exec, julian, last_insert_id, prepare, prune_messages_before,
  prune_moderation_events_before, rows_affected, save_moderation_event_for_user,
}
use chatster.Db.Sqlite.Clock.{
  Evolves, IsChronicle, KeepsTime, Written, held, log_of, map-take, rests,
}

module _ ⦃d : Driver⦄ where
  -- Whether a row outlives a cutoff.
  unfoldable pub kept_by : Time → Row → Bool
  kept_by cutoff r = not (ltb (julian r) (d.julianday (d.format_utc cutoff)))

  pub julian-le :
      (x r : Row)
      → KeepsTime d
      → Written x
      → Written r
      → (held x).timestamp ≤ (held r).timestamp
      → julian x ≤ julian r
  julian-le x r laws wx wr h = rw (wx, wr) (laws.monotone (held x).timestamp (held r).timestamp h)

  fails_behind :
      (cutoff : Time) (r : Row) (rs : List Row)
      → KeepsTime d
      → Written r
      → All Written rs
      → All (λ m. m.timestamp ≤ (held r).timestamp) (map held rs)
      → kept_by cutoff r ≡ false
      → All (λ x. kept_by cutoff x ≡ false) rs
  unfolding kept_by
  fails_behind cutoff r [] laws wr ws v h = tt
  fails_behind cutoff r (x ∷ rs) laws wr ws v h =
      let p = julian-le x r laws ws.0 wr v.0 in
      (ground arith, fails_behind cutoff r rs laws wr ws.1 v.1 h)

  rows-Falling :
      (cutoff : Time) (rs : List Row)
      → KeepsTime d
      → All Written rs
      → IsLog (map held rs)
      → Falling (kept_by cutoff) rs
  rows-Falling cutoff [] laws ws v = tt
  rows-Falling cutoff (r ∷ rs) laws ws v =
      (fails_behind cutoff r rs laws ws.0 ws.1 v.1, rows-Falling cutoff rs laws ws.1 v.2)

  take-Evolves :
      (n : ℕ) (last now : Time) (db : Db)
      → last ≤ now
      → IsChronicle last db
      → Evolves now db (record db { rows = take n db.rows })
  take-Evolves n last now db h v =
      let same = map-take held n db.rows in
      record {
        reach = subst (LogReach (log_of db)) (sym same) (next here (forgets n));
        ordered = record {
          log = subst IsLog (sym same) (IsLog-take n (log_of db) v.log);
          ids = rw same (All-take (λ m. m.id < db.next_id) n (log_of db) v.ids);
          past = rw same (
              at_most_later last now _ h (All-take (λ m. m.timestamp ≤ last) n (log_of db) v.past));
          written = All-take Written n db.rows v.written;
        };
      }

  pub prune_messages-Evolves :
      (fails : Faults) (last now cutoff : Time) (db : Db)
      → KeepsTime d
      → last ≤ now
      → IsChronicle last db
      → Evolves now db (prune_messages_before fails cutoff db).1
  unfolding prune_messages_before kept_by
  prune_messages-Evolves fails last now cutoff db laws h v = elim (Bool-cases (fails exec)) [
    | inl e ↦ rw e (rests last now db h v)
    | inr e ↦ elim (Bool-cases (fails rows_affected)) [
      | inl k ↦ rw (e, k) pruned
      | inr k ↦ rw (e, k) pruned
    ]
  ]
    where
      rest : List Row
      rest = keep (kept_by cutoff) db.rows

      pruned : Evolves now db (record db { rows = rest })
      pruned =
          subst (λ rs. Evolves now db (record db { rows = rs }))
            (sym (
              keep-Falling (kept_by cutoff) db.rows
                (rows-Falling cutoff db.rows laws v.written v.log)))
            (take-Evolves (length rest) last now db h v)

  -- The statements on the other table.
  pub other_table :
      (last now : Time) (db db' : Db)
      → last ≤ now
      → db'.rows ≡ db.rows
      → db'.next_id ≡ db.next_id
      → IsChronicle last db
      → Evolves now db db'
  other_table last now db db' h rows ids v =
      let kept = rests last now db h v in
      record {
        reach = subst (λ rs. LogReach (log_of db) (map held rs)) (sym rows) here;
        ordered = record {
          log = subst (λ rs. IsLog (map held rs)) (sym rows) v.log;
          ids = rw (rows, ids) v.ids;
          past = rw rows kept.ordered.past;
          written = subst (All Written) (sym rows) v.written;
        };
      }

  pub audit_saved-rows :
      (fails : Faults) (now : Time) (a b c e f : Text) (db : Db)
      → ((save_moderation_event_for_user fails now a b c e f db).1.rows ≡ db.rows)
        × ((save_moderation_event_for_user fails now a b c e f db).1.next_id ≡ db.next_id)
  unfolding save_moderation_event_for_user
  audit_saved-rows fails now a b c e f db = elim (Bool-cases (fails prepare)) [
    | inl r ↦ rw r (refl, refl)
    | inr r ↦ elim (Bool-cases (fails exec)) [
      | inl l ↦ rw (r, l) (refl, refl)
      | inr l ↦ elim (Bool-cases (fails last_insert_id)) [
        | inl k ↦ rw (r, l, k) (refl, refl)
        | inr k ↦ rw (r, l, k) (refl, refl)
      ]
    ]
  ]

  pub audit_pruned-rows :
      (fails : Faults) (cutoff : Time) (db : Db)
      → ((prune_moderation_events_before fails cutoff db).1.rows ≡ db.rows)
        × ((prune_moderation_events_before fails cutoff db).1.next_id ≡ db.next_id)
  unfolding prune_moderation_events_before
  audit_pruned-rows fails cutoff db = elim (Bool-cases (fails exec)) [
    | inl r ↦ rw r (refl, refl)
    | inr r ↦ elim (Bool-cases (fails rows_affected)) [
      | inl l ↦ rw (r, l) (refl, refl)
      | inr l ↦ rw (r, l) (refl, refl)
    ]
  ]
