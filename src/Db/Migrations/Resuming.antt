-- ===== src/Db/Migrations/Resuming.antt =====
-- Runs of the migrations that stop and start again.
use chatster.Prelude.{
  Bool, Distinct, List, [], ap, append_nil, contains, err, false, if-elim, ok, refl, sym, true, ℕ,
  ◌++◌, ◌∙◌, ◌∷◌, ◌≡◌, nat_eq, list_eq,
}
use chatster.Db.Migrations.{
  Backend, Migrated, MigrationFaults, Schema, all_migrations, finish, migrate, migrate_all,
  migrate_postgres, migrate_sqlite, no_schema, postgres, run_migrations, sqlite,
}
use chatster.Db.Migrations.Stages.{continue, migrate_all-Stage}

-- A first part of the migrations was carried out, each once.
abbrev pub IsPartial : Schema → Type 0
IsPartial s =
    (applied left : List ℕ) × (all_migrations ≡ applied ++ left)
    × (s.versions ≡ applied)
    × (s.scripts ≡ applied)

all-Distinct : Distinct all_migrations
unfolding contains
all-Distinct = (refl, (refl, (refl, (refl, (refl, (refl, tt))))))

migrate_all-IsPartial :
    (b : Backend) (fails : MigrationFaults) (s : Schema)
    → IsPartial s
    → IsPartial (migrate_all b fails all_migrations s).1
      × ((migrate_all b fails all_migrations s).0 ≡ ok tt
          → (migrate_all b fails all_migrations s).1.scripts ≡ all_migrations)
migrate_all-IsPartial b fails s (applied, left, parts, same, same') =
    let stage = migrate_all-Stage b fails [] all_migrations s (record {
      applied = applied;
      left = left;
      parts = parts;
      versions = same;
      scripts = same';
      distinct = all-Distinct;
    }) in
    (
      (stage.applied, stage.left, stage.parts, stage.versions, stage.scripts),
      λ k.
          stage.scripts
          ∙ sym (append_nil stage.applied)
          ∙ ap (λ l. stage.applied ++ l) (sym (stage.complete k))
          ∙ sym stage.parts,
    )

pub run_migrations-IsPartial :
    (b : Backend) (t : Bool) (fails : MigrationFaults) (s : Schema)
    → IsPartial s
    → IsPartial (run_migrations b t fails s).1
      × ((run_migrations b t fails s).0 ≡ ok tt
          → (run_migrations b t fails s).1.scripts ≡ all_migrations)
unfolding run_migrations
run_migrations-IsPartial sqlite true fails s v = (v, λ k. cc)
run_migrations-IsPartial sqlite false fails s v = migrate_all-IsPartial sqlite fails s v
run_migrations-IsPartial postgres t fails s v = migrate_all-IsPartial postgres fails s v

-- One start of a process after the other.
unfoldable pub run_all : Backend → List (Bool × MigrationFaults) → Schema → Schema
run_all b [] s = s
run_all b ((t, fails) ∷ rest) s = run_all b rest (run_migrations b t fails s).1

run_all-IsPartial :
    (b : Backend) (starts : List (Bool × MigrationFaults)) (s : Schema)
    → IsPartial s
    → IsPartial (run_all b starts s)
unfolding run_all
run_all-IsPartial b [] s v = v
run_all-IsPartial b ((t, fails) ∷ rest) s v =
    run_all-IsPartial b rest (run_migrations b t fails s).1
      (run_migrations-IsPartial b t fails s v).0

-- Without a fault a migration succeeds.
migrate-succeeds : (b : Backend) (m : ℕ) (s : Schema) → (migrate b (λ c. false) m s).0 ≡ ok tt
unfolding migrate_sqlite migrate_postgres finish
migrate-succeeds sqlite m s =
    if-elim (λ (r : Migrated). r.0 ≡ ok tt) (contains s.versions m) (λ e. refl) (λ e. refl)
migrate-succeeds postgres m s =
    if-elim (λ (r : Migrated). r.0 ≡ ok tt) (contains s.versions m) (λ e. refl) (λ e. refl)

continue-ok :
    (b : Backend) (fails : MigrationFaults) (ms : List ℕ) (r : Migrated)
    → r.0 ≡ ok tt
    → continue b fails ms r ≡ migrate_all b fails ms r.1
continue-ok b fails ms (ok x, s) e = refl
continue-ok b fails ms (err x, s) e = cc

migrate_all-succeeds :
    (b : Backend) (ms : List ℕ) (s : Schema) → (migrate_all b (λ m c. false) ms s).0 ≡ ok tt
unfolding migrate_all
migrate_all-succeeds b [] s = refl
migrate_all-succeeds b (m ∷ ms) s =
    ap (λ (r : Migrated). r.0)
      (continue-ok b (λ k c. false) ms (migrate b (λ c. false) m s) (migrate-succeeds b m s))
    ∙ migrate_all-succeeds b ms (migrate b (λ c. false) m s).1

run_migrations-succeeds :
    (b : Backend) (s : Schema) → (run_migrations b false (λ m c. false) s).0 ≡ ok tt
unfolding run_migrations
run_migrations-succeeds sqlite s = migrate_all-succeeds sqlite all_migrations s
run_migrations-succeeds postgres s = migrate_all-succeeds postgres all_migrations s

-- However often a process was started on a new database, whichever calls failed in the migrations and
-- whichever replies of a commit were lost, the scripts that were carried out are the first ones of the
-- list, in its order and each once, and the recorded versions are theirs. A start whose migrations
-- succeed has carried out all of them, and a start in which no call fails succeeds.
pub run_migrations-resumes :
    (b : Backend) (starts : List (Bool × MigrationFaults))
    → IsPartial (run_all b starts no_schema)
      × ((t : Bool) (fails : MigrationFaults)
          → (run_migrations b t fails (run_all b starts no_schema)).0 ≡ ok tt
          → (run_migrations b t fails (run_all b starts no_schema)).1.scripts ≡ all_migrations)
      × ((run_migrations b false (λ m c. false) (run_all b starts no_schema)).0 ≡ ok tt)
run_migrations-resumes b starts =
    let v = run_all-IsPartial b starts no_schema ([], all_migrations, refl, refl, refl) in
    (
      v,
      λ t fails. (run_migrations-IsPartial b t fails (run_all b starts no_schema) v).1,
      run_migrations-succeeds b (run_all b starts no_schema),
    )
