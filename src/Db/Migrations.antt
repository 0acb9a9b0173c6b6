-- ===== src/Db/Migrations.antt =====
-- The schema migrations of backend/db/database.go and backend/db/postgres.go. A migration is its version.
-- A transaction that is not committed leaves nothing behind; a commit may be carried out though its
-- reply is lost.
pub mod Stages
pub mod Resuming
use chatster.Prelude.{
  Bool, List, Result, [], contains, err, false, if◌then◌else◌, ok, true, ℕ, ◌++◌, ◌∷◌, nat_eq,
  list_eq,
}

pub data MigrationCall : Type 0 where
  create_table lookup begin_tx lock_schema script record_version commit commit_reply : MigrationCall

-- Which calls fail in the migration to a version.
abbrev pub MigrationFaults : Type 0
MigrationFaults = ℕ → MigrationCall → Bool

-- The rows of `schema_migrations`, and the versions whose script was carried out, the oldest first.
pub record Schema : Type 0 where
  pub versions : List ℕ
  pub scripts : List ℕ

abbrev pub no_schema : Schema
no_schema = record { versions = []; scripts = [] }

abbrev pub all_migrations : List ℕ
all_migrations = 1 ∷ 2 ∷ 3 ∷ 4 ∷ 5 ∷ 6 ∷ []

abbrev pub add_version : ℕ → Schema → Schema
add_version m s = record { versions = s.versions ++ m ∷ []; scripts = s.scripts ++ m ∷ [] }

abbrev pub Migrated : Type 0
Migrated = Result MigrationCall (Unit {0}) × Schema

-- The script, its row and the commit of a transaction.
unfoldable pub finish : (MigrationCall → Bool) → ℕ → Schema → Migrated
finish fails m s =
    if fails script
    then (err script, s)
    else if fails record_version
    then (err record_version, s)
    else if fails commit
    then (err commit, s)
    else if fails commit_reply
    then (err commit_reply, add_version m s)
    else (ok tt, add_version m s)

-- `migrationApplied` and `applyMigration` of backend/db/database.go
unfoldable pub migrate_sqlite : (MigrationCall → Bool) → ℕ → Schema → Migrated
migrate_sqlite fails m s =
    if fails lookup
    then (err lookup, s)
    else if contains s.versions m
    then (ok tt, s)
    else if fails begin_tx
    then (err begin_tx, s)
    else finish fails m s

-- `applyMigration` of backend/db/postgres.go
unfoldable pub migrate_postgres : (MigrationCall → Bool) → ℕ → Schema → Migrated
migrate_postgres fails m s =
    if fails begin_tx
    then (err begin_tx, s)
    else if fails lock_schema
    then (err lock_schema, s)
    else if fails create_table
    then (err create_table, s)
    else if fails lookup
    then (err lookup, s)
    else if contains s.versions m
    then (if fails commit then err commit else ok tt, s)
    else finish fails m s

pub data Backend : Type 0 where
  sqlite postgres : Backend

abbrev pub migrate : Backend → (MigrationCall → Bool) → ℕ → Schema → Migrated
migrate sqlite = migrate_sqlite
migrate postgres = migrate_postgres

-- The loop over the migrations.
unfoldable pub migrate_all : Backend → MigrationFaults → List ℕ → Schema → Migrated
migrate_all b fails [] s = (ok tt, s)
migrate_all b fails (m ∷ ms) s =
    let (result, s') = migrate b (fails m) m s in
    let rest = migrate_all b fails ms s' in elim result [ err e ↦ (err e, s') | ok x ↦ rest ]

-- `runMigrations`; SQLite has its table of versions made first.
unfoldable pub run_migrations : Backend → Bool → MigrationFaults → Schema → Migrated
run_migrations sqlite true fails s = (err create_table, s)
run_migrations sqlite false fails s = migrate_all sqlite fails all_migrations s
run_migrations postgres b fails s = migrate_all postgres fails all_migrations s
