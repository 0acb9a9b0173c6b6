-- ===== src/Db/Repository/Opening.antt =====
-- What is established once the storage is open.
use chatster.Prelude.Int.{less, negsuc, pos, ℤ}
use chatster.Prelude.{
  Result, [], all, ap, eq→≡, err, false, if-elim, is_nil, ltb_false→le, ne_nil_of_is_nil, ok,
  ok-injective, refl, reject_if-ok, subst, ℕ, ◌==◌, ◌≡◌, ◌≢◌, ◌≤◌, nat_eq, list_eq,
}
use chatster.Text.{Text, Unicode, codes, trim_space}
use chatster.Db.Migrations.{
  Backend, Migrated, Schema, all_migrations, postgres, run_migrations, sqlite,
}
use chatster.Db.Migrations.Resuming.{IsPartial, run_migrations-IsPartial}
use chatster.Db.Repository.{
  Backends, OpenError, StartupError, StorageConfig, backend_name, connect_postgres, max_below_min,
  migrated, negative_min, no_dsn, no_max, open_postgres, open_repository, open_sqlite,
  or_default_size, started, then_migrate,
}

-- The sizes of the pool.
pub record IsPool (min_conns max_conns : ℤ) : Type 0 where
  pub low : ℕ
  pub high : ℕ
  pub min_is : min_conns ≡ pos low
  pub max_is : max_conns ≡ pos high
  pub ordered : low ≤ high
  pub positive : 1 ≤ high

IsPool-of :
    (a b : ℤ) → less a (pos 0) ≡ false → less b (pos 1) ≡ false → less b a ≡ false → IsPool a b
IsPool-of (negsuc m) b h k l = cc
IsPool-of (pos m) (negsuc n) h k l = cc
IsPool-of (pos m) (pos n) h k l = record {
  low = m;
  high = n;
  min_is = refl;
  max_is = refl;
  ordered = ltb_false→le n m l;
  positive = ltb_false→le n 1 k;
}

connect_postgres-IsPool :
    (x : Backends) (dsn : Text) (a b : ℤ)
    → connect_postgres x dsn a b ≡ ok tt
    → (trim_space dsn ≢ []) × IsPool a b
unfolding connect_postgres
connect_postgres-IsPool x dsn a b h =
    let (given, h₁) = reject_if-ok (is_nil (trim_space dsn)) no_dsn _ h in
    let (low, h₂) = reject_if-ok (less a (pos 0)) negative_min _ h₁ in
    let (high, h₃) = reject_if-ok (less b (pos 1)) no_max _ h₂ in
    let (order, h₄) = reject_if-ok (less b a) max_below_min _ h₃ in
    (ne_nil_of_is_nil (trim_space dsn) given, IsPool-of a b low high order)

migrated-ok : (r : Migrated) (s' : Schema) → migrated r ≡ (ok tt, s') → (r.0 ≡ ok tt) × (r.1 ≡ s')
unfolding migrated
migrated-ok (ok t, s) s' h = (refl, ap (λ (y : Result OpenError (Unit {0}) × Schema). y.1) h)
migrated-ok (err e, s) s' h = cc (ap (λ (y : Result OpenError (Unit {0}) × Schema). y.0) h)

-- A start that succeeds has connected and migrated.
then_migrate-ok :
    (r : Result OpenError (Unit {0})) (b : Backend) (x : Backends) (s s' : Schema)
    → IsPartial s
    → then_migrate r b x s ≡ (ok tt, s')
    → (r ≡ ok tt) × (s'.scripts ≡ all_migrations)
then_migrate-ok (err e) b x s s' v h = cc (ap (λ (y : Result OpenError (Unit {0}) × Schema). y.0) h)
then_migrate-ok (ok t) b x s s' v h =
    let (done, same) = migrated-ok (run_migrations b x.table_fails x.migration_fails s) s' h in
    (
      refl,
      subst (λ (y : Schema). y.scripts ≡ all_migrations) same
          ((run_migrations-IsPartial b x.table_fails x.migration_fails s v).1 done),
    )

started-ok :
    (name : Text) (b b' : Backend) (r : Result OpenError (Unit {0}) × Schema) (s' : Schema)
    → started name b r ≡ (ok b', s')
    → (b ≡ b') × (r ≡ (ok tt, s'))
started-ok name b b' (ok t, s) s' h =
    let first = ap (λ (y : Result StartupError Backend × Schema). y.0) h in
    (
      ok-injective first,
      ap (λ (z : Schema). (ok tt, z)) (ap (λ (y : Result StartupError Backend × Schema). y.1) h),
    )
started-ok name b b' (err e, s) s' h = cc (ap (λ (y : Result StartupError Backend × Schema). y.0) h)

module _ ⦃u : Unicode⦄ where
  -- The backend that is open, with what was checked for it.
  pub data Chosen (cfg : StorageConfig) : Backend → Type 0 where
    on_sqlite : backend_name cfg ≡ codes "sqlite" → Chosen cfg sqlite
    on_postgres :
        backend_name cfg ≡ codes "postgres"
        → trim_space cfg.postgres_dsn ≢ []
        → IsPool
            (or_default_size cfg.postgres_min_conns 2)
            (or_default_size cfg.postgres_max_conns 10)
        → Chosen cfg postgres

  -- The storage opens only as the backend that is configured. For PostgreSQL the DSN is not blank and
  -- the sizes of the pool are not negative, with a maximum that is not 0 nor below the minimum. And
  -- the schema, however far earlier starts came with it, has all migrations.
  pub open_repository-Chosen :
      (x : Backends) (cfg : StorageConfig) (b : Backend) (s s' : Schema)
      → IsPartial s
      → open_repository x cfg s ≡ (ok b, s')
      → Chosen cfg b × (s'.scripts ≡ all_migrations)
  unfolding open_repository open_sqlite open_postgres
  open_repository-Chosen x cfg b s s' v =
      if-elim (λ r. r ≡ (ok b, s') → Chosen cfg b × (s'.scripts ≡ all_migrations))
        (backend_name cfg == codes "sqlite")
        (λ e h.
          let (same, opened) = started-ok (backend_name cfg) sqlite b _ s' h in
          let (_, all) = then_migrate-ok _ sqlite x s s' v opened in
          (subst (Chosen cfg) same (on_sqlite (eq→≡ _ _ e)), all))
        (λ e.
          if-elim (λ r. r ≡ (ok b, s') → Chosen cfg b × (s'.scripts ≡ all_migrations))
            (backend_name cfg == codes "postgres")
            (λ k h.
              let (same, opened) = started-ok (backend_name cfg) postgres b _ s' h in
              let (connected, all) = then_migrate-ok _ postgres x s s' v opened in
              let (dsn, pool) = connect_postgres-IsPool x cfg.postgres_dsn _ _ connected in
              (subst (Chosen cfg) same (on_postgres (eq→≡ _ _ k) dsn pool), all))
            (λ k h. cc (ap (λ (y : Result StartupError Backend × Schema). y.0) h)))
