-- ===== src/Db/Repository.antt =====
-- The start of the storage: `OpenRepository` of backend/db/repository.go, `Open` of backend/db/database.go
-- and `OpenPostgres` of backend/db/postgres.go. What the drivers answer is an argument.
pub mod Opening
use chatster.Prelude.Int.{less, negsuc, pos, ℤ}
use chatster.Prelude.{
  Bool, List, Result, [], err, if◌then◌else◌, is_nil, not, ok, reject_if, ℕ, ◌==◌, ◌>>=◌, ◌>>◌, ◌∷◌,
  nat_eq, list_eq,
}
use chatster.Text.{Text, Unicode, codes, to_lower, trim_space}
use chatster.Db.Migrations.{
  Backend, Migrated, MigrationCall, MigrationFaults, Schema, postgres, run_migrations, sqlite,
}

pub record StorageConfig : Type 0 where
  pub storage : Text
  pub sqlite_path : Text
  pub postgres_dsn : Text
  pub postgres_min_conns : ℤ
  pub postgres_max_conns : ℤ

-- What the drivers answer: `sql.Open` of a path, the pragmas, `pgxpool.ParseConfig` of a DSN,
-- `pgxpool.NewWithConfig`, the pings, and the calls of the migrations.
pub record Backends : Type 0 where
  pub sqlite_opens : Text → Bool
  pub pragma_fails : Text → Bool
  pub sqlite_pings : Bool
  pub parses_dsn : Text → Bool
  pub pool_made : Bool
  pub postgres_pings : Bool
  pub table_fails : Bool
  pub migration_fails : MigrationFaults

pub data OpenError : Type 0 where
  cannot_open cannot_configure cannot_ping : OpenError
  no_dsn negative_min no_max max_below_min invalid_dsn no_pool : OpenError
  migration_failed : MigrationCall → OpenError

pub data Operation : Type 0 where
  open_backend : OpenError → Operation
  select_backend : Operation

pub record StartupError : Type 0 where
  pub backend : Text
  pub operation : Operation

abbrev pub default_sqlite_path : Text
default_sqlite_path = codes "./chatster.db"

abbrev pragmas : List Text
pragmas =
    codes "PRAGMA foreign_keys = ON"
    ∷ codes "PRAGMA journal_mode = WAL"
    ∷ codes "PRAGMA synchronous = NORMAL"
    ∷ codes "PRAGMA busy_timeout = 5000"
    ∷ []

-- The loop of `configureSQLite`.
unfoldable pub configure : Backends → List Text → Result OpenError (Unit {0})
configure x [] = ok tt
configure x (p ∷ ps) =
    let rest = configure x ps in if x.pragma_fails p then err cannot_configure else rest

-- The last step of both, on the schema of the database.
unfoldable pub migrated : Migrated → Result OpenError (Unit {0}) × Schema
migrated (ok t, s) = (ok t, s)
migrated (err e, s) = (err (migration_failed e), s)

-- The steps of a start before the migrations, and the migrations if they succeed.
abbrev then_migrate :
    Result OpenError (Unit {0}) → Backend → Backends → Schema → Result OpenError (Unit {0}) × Schema
then_migrate (err e) b x s = (err e, s)
then_migrate (ok t) b x s = migrated (run_migrations b x.table_fails x.migration_fails s)

unfoldable pub connect_sqlite : Backends → Text → Result OpenError (Unit {0})
connect_sqlite x path = do
  reject_if (not (x.sqlite_opens path)) cannot_open
  configure x pragmas
  reject_if (not x.sqlite_pings) cannot_ping

unfoldable pub connect_postgres : Backends → Text → ℤ → ℤ → Result OpenError (Unit {0})
connect_postgres x dsn min_conns max_conns = do
  reject_if (is_nil (trim_space dsn)) no_dsn
  reject_if (less min_conns (pos 0)) negative_min
  reject_if (less max_conns (pos 1)) no_max
  reject_if (less max_conns min_conns) max_below_min
  reject_if (not (x.parses_dsn dsn)) invalid_dsn
  reject_if (not x.pool_made) no_pool
  reject_if (not x.postgres_pings) cannot_ping

-- `Open` and `OpenPostgres`
unfoldable pub open_sqlite : Backends → Text → Schema → Result OpenError (Unit {0}) × Schema
open_sqlite x path s = then_migrate (connect_sqlite x path) sqlite x s

unfoldable pub open_postgres :
    Backends → Text → ℤ → ℤ → Schema → Result OpenError (Unit {0}) × Schema
open_postgres x dsn min_conns max_conns s =
    then_migrate (connect_postgres x dsn min_conns max_conns) postgres x s

-- A pool size of 0 stands for the default.
abbrev pub or_default_size : ℤ → ℕ → ℤ
or_default_size (negsuc n) default = negsuc n
or_default_size (pos n) default = if n == 0 then pos default else pos n

abbrev started :
    Text → Backend → Result OpenError (Unit {0}) × Schema → Result StartupError Backend × Schema
started name b (ok t, s) = (ok b, s)
started name b (err e, s) = (err (record { backend = name; operation = open_backend e }), s)

module _ ⦃u : Unicode⦄ where
  abbrev pub backend_name : StorageConfig → Text
  backend_name cfg =
      let lowered = to_lower (trim_space cfg.storage) in
      if is_nil lowered then codes "sqlite" else lowered

  abbrev pub sqlite_path_of : StorageConfig → Text
  sqlite_path_of cfg =
      let path = trim_space cfg.sqlite_path in if is_nil path then default_sqlite_path else path

  -- The backend that is opened, and the schema of its database.
  unfoldable pub open_repository :
      Backends → StorageConfig → Schema → Result StartupError Backend × Schema
  open_repository x cfg s =
      if backend_name cfg == codes "sqlite"
      then started (backend_name cfg) sqlite (open_sqlite x (sqlite_path_of cfg) s)
      else if backend_name cfg == codes "postgres"
      then started (backend_name cfg) postgres (
          open_postgres x cfg.postgres_dsn (or_default_size cfg.postgres_min_conns 2)
            (or_default_size cfg.postgres_max_conns 10) s)
      else (err (record { backend = backend_name cfg; operation = select_backend }), s)
