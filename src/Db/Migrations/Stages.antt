-- ===== src/Db/Migrations/Stages.antt =====
-- One run of the migrations of backend/db, from any of them on.
use mathlib.Core.List.{append_assoc}
use chatster.Prelude.{
  Bool, Distinct, List, [], ap, append_nil, arith, contains, contains-append, eq_refl, eq_sym, err,
  false, if-elim, ok, or-false, refl, subst, sym, true, ℕ, ◌++◌, ◌==◌, ◌∙◌, ◌∷◌, ◌≡◌, nat_eq,
  list_eq,
}
use chatster.Db.Migrations.{
  Backend, Migrated, MigrationCall, MigrationFaults, Schema, add_version, begin_tx, commit,
  commit_reply, create_table, finish, lock_schema, lookup, migrate, migrate_all, migrate_postgres,
  migrate_sqlite, postgres, record_version, script, sqlite,
}

-- What one migration may do.
data Moves (m : ℕ) (s : Schema) : Migrated → Type 0 where
  skips : contains s.versions m ≡ true → Moves m s (ok tt, s)
  adds : contains s.versions m ≡ false → Moves m s (ok tt, add_version m s)
  stops : (e : MigrationCall) → Moves m s (err e, s)
  stops_behind :
      (e : MigrationCall) → contains s.versions m ≡ false → Moves m s (err e, add_version m s)

finish-Moves :
    (fails : MigrationCall → Bool) (m : ℕ) (s : Schema)
    → contains s.versions m ≡ false
    → Moves m s (finish fails m s)
unfolding finish
finish-Moves fails m s n =
    if-elim (Moves m s) (fails script) (λ e. stops script)
      (λ e.
        if-elim (Moves m s) (fails record_version) (λ e. stops record_version)
          (λ e.
            if-elim (Moves m s) (fails commit) (λ e. stops commit)
              (λ e.
                if-elim (Moves m s) (fails commit_reply) (λ e. stops_behind commit_reply n)
                  (λ e. adds n))))

migrate-Moves :
    (b : Backend) (fails : MigrationCall → Bool) (m : ℕ) (s : Schema)
    → Moves m s (migrate b fails m s)
unfolding migrate_sqlite migrate_postgres
migrate-Moves sqlite fails m s =
    if-elim (Moves m s) (fails lookup) (λ e. stops lookup)
      (λ e. if-elim (Moves m s) (contains s.versions m) skips (λ n.
        if-elim (Moves m s) (fails begin_tx) (λ e. stops begin_tx) (λ e. finish-Moves fails m s n)))
migrate-Moves postgres fails m s =
    if-elim (Moves m s) (fails begin_tx) (λ e. stops begin_tx)
      (λ e.
        if-elim (Moves m s) (fails lock_schema) (λ e. stops lock_schema)
          (λ e.
            if-elim (Moves m s) (fails create_table) (λ e. stops create_table)
              (λ e.
                if-elim (Moves m s) (fails lookup) (λ e. stops lookup)
                  (λ e.
                    if-elim (Moves m s) (contains s.versions m)
                      (λ k.
                        if-elim (λ r. Moves m s (r, s)) (fails commit) (λ e. stops commit)
                          (λ e. skips k))
                      (λ n. finish-Moves fails m s n)))))

-- Where the versions stand: those of a first part of the list, in order, each carried out once.
pub record Stage (visited todo : List ℕ) (r : Migrated) : Type 0 where
  pub applied : List ℕ
  pub left : List ℕ
  pub parts : todo ≡ applied ++ left
  pub versions : r.1.versions ≡ visited ++ applied
  pub scripts : r.1.scripts ≡ visited ++ applied
  pub complete : r.0 ≡ ok tt → left ≡ []

-- What stands before the loop over `todo`, behind the migrations that it visited.
pub record Standing (visited todo : List ℕ) (s : Schema) : Type 0 where
  pub applied : List ℕ
  pub left : List ℕ
  pub parts : todo ≡ applied ++ left
  pub versions : s.versions ≡ visited ++ applied
  pub scripts : s.scripts ≡ visited ++ applied
  pub distinct : Distinct (visited ++ todo)

unvisited :
    (visited : List ℕ) (m : ℕ) (ms : List ℕ)
    → Distinct (visited ++ m ∷ ms)
    → contains visited m ≡ false
unfolding contains
unvisited [] m ms d = refl
unvisited (x ∷ xs) m ms d =
    let apart =
      or-false (contains xs x) (contains (m ∷ ms) x) (sym (contains-append xs (m ∷ ms) x) ∙ d.0) in
    let other = or-false (m == x) (contains ms x) apart.1 in
    rw (eq_sym x m, other.0) (unvisited xs m ms d.1)

visited_contains : (visited : List ℕ) (m : ℕ) (ms : List ℕ) → contains (visited ++ m ∷ ms) m ≡ true
unfolding contains
visited_contains visited m ms =
    rw (contains-append visited (m ∷ ms) m, contains, eq_refl m) (ground arith)

one_more : (visited : List ℕ) (m : ℕ) (ms : List ℕ) → (visited ++ m ∷ []) ++ ms ≡ visited ++ m ∷ ms
one_more visited m ms = append_assoc visited (m ∷ []) ms

abbrev pub continue : Backend → MigrationFaults → List ℕ → Migrated → Migrated
continue b fails ms r = elim r.0 as (λ _. Migrated) [
  | err e ↦ (err e, r.1)
  | ok x ↦ migrate_all b fails ms r.1
]

-- The rest of the loop, from what was visited.
Rest : Backend → MigrationFaults → List ℕ → Type 0
Rest b fails ms =
    (visited : List ℕ) (s : Schema)
    → Standing visited ms s
    → Stage visited ms (migrate_all b fails ms s)

-- The next migration, with nothing applied behind what was visited.
first_move :
    (b : Backend) (fails : MigrationFaults) (m : ℕ) (ms visited : List ℕ) (s : Schema)
    (r : Migrated)
    → Rest b fails ms
    → s.versions ≡ visited
    → s.scripts ≡ visited
    → Distinct (visited ++ m ∷ ms)
    → Moves m s r
    → Stage visited (m ∷ ms) (continue b fails ms r)
unfolding Rest
first_move b fails m ms visited s r rest same same' d (skips k) =
    cc (k, ap (λ l. contains l m) same, unvisited visited m ms d)
first_move b fails m ms visited s r rest same same' d (adds n) =
    let behind = rest (visited ++ m ∷ []) (add_version m s) (record {
      applied = [];
      left = ms;
      parts = refl;
      versions = ap (λ l. l ++ m ∷ []) same ∙ sym (append_nil (visited ++ m ∷ []));
      scripts = ap (λ l. l ++ m ∷ []) same' ∙ sym (append_nil (visited ++ m ∷ []));
      distinct = subst Distinct (sym (one_more visited m ms)) d;
    }) in
    record {
      applied = m ∷ behind.applied;
      left = behind.left;
      parts = ap (◌∷◌ m) behind.parts;
      versions = behind.versions ∙ one_more visited m behind.applied;
      scripts = behind.scripts ∙ one_more visited m behind.applied;
      complete = behind.complete;
    }
first_move b fails m ms visited s r rest same same' d (stops e) = record {
  applied = [];
  left = m ∷ ms;
  parts = refl;
  versions = same ∙ sym (append_nil visited);
  scripts = same' ∙ sym (append_nil visited);
  complete = λ k. cc;
}
first_move b fails m ms visited s r rest same same' d (stops_behind e n) = record {
  applied = m ∷ [];
  left = ms;
  parts = refl;
  versions = ap (λ l. l ++ m ∷ []) same;
  scripts = ap (λ l. l ++ m ∷ []) same';
  complete = λ k. cc;
}

-- A migration that was applied before.
known_move :
    (b : Backend) (fails : MigrationFaults) (m : ℕ) (applied left visited : List ℕ) (s : Schema)
    (r : Migrated)
    → Rest b fails (applied ++ left)
    → s.versions ≡ visited ++ m ∷ applied
    → s.scripts ≡ visited ++ m ∷ applied
    → Distinct (visited ++ m ∷ (applied ++ left))
    → Moves m s r
    → Stage visited (m ∷ (applied ++ left)) (continue b fails (applied ++ left) r)
unfolding Rest
known_move b fails m applied left visited s r rest same same' d (skips k) =
    let behind = rest (visited ++ m ∷ []) s (record {
      applied = applied;
      left = left;
      parts = refl;
      versions = same ∙ sym (one_more visited m applied);
      scripts = same' ∙ sym (one_more visited m applied);
      distinct = subst Distinct (sym (one_more visited m (applied ++ left))) d;
    }) in
    record {
      applied = m ∷ behind.applied;
      left = behind.left;
      parts = ap (◌∷◌ m) behind.parts;
      versions = behind.versions ∙ one_more visited m behind.applied;
      scripts = behind.scripts ∙ one_more visited m behind.applied;
      complete = behind.complete;
    }
known_move b fails m applied left visited s r rest same same' d (adds n) =
    cc (n, ap (λ l. contains l m) same, visited_contains visited m applied)
known_move b fails m applied left visited s r rest same same' d (stops e) = record {
  applied = m ∷ applied;
  left = left;
  parts = refl;
  versions = same;
  scripts = same';
  complete = λ k. cc;
}
known_move b fails m applied left visited s r rest same same' d (stops_behind e n) =
    cc (n, ap (λ l. contains l m) same, visited_contains visited m applied)

none_left : (xs ys : List ℕ) → ◌≡◌ {A = List ℕ} [] (xs ++ ys) → ys ≡ []
none_left [] ys e = sym e
none_left (x ∷ xs) ys e = cc

next_move :
    (b : Backend) (fails : MigrationFaults) (m : ℕ) (ms visited applied left : List ℕ) (s : Schema)
    → Rest b fails ms
    → m ∷ ms ≡ applied ++ left
    → s.versions ≡ visited ++ applied
    → s.scripts ≡ visited ++ applied
    → Distinct (visited ++ m ∷ ms)
    → Stage visited (m ∷ ms) (continue b fails ms (migrate b (fails m) m s))
next_move b fails m ms visited [] left s rest parts same same' d =
    first_move b fails m ms visited s _ rest (same ∙ append_nil visited)
      (same' ∙ append_nil visited) d (migrate-Moves b (fails m) m s)
next_move b fails m ms visited (x ∷ applied) left s rest parts same same' d =
    let head : m ≡ x = cc in
    let others : ms ≡ applied ++ left = cc in
    let at : s.versions ≡ visited ++ m ∷ applied =
      same ∙ ap (λ y. visited ++ y ∷ applied) (sym head) in
    let at' : s.scripts ≡ visited ++ m ∷ applied =
      same' ∙ ap (λ y. visited ++ y ∷ applied) (sym head) in
    subst (λ l. Stage visited (m ∷ l) (continue b fails l (migrate b (fails m) m s))) (sym others)
      (known_move b fails m applied left visited s _ (subst (Rest b fails) others rest) at at'
        (subst (λ l. Distinct (visited ++ m ∷ l)) others d) (migrate-Moves b (fails m) m s))

pub migrate_all-Stage :
    (b : Backend) (fails : MigrationFaults) (visited todo : List ℕ) (s : Schema)
    → Standing visited todo s
    → Stage visited todo (migrate_all b fails todo s)
unfolding migrate_all Rest
migrate_all-Stage b fails visited [] s v = record {
  applied = v.applied;
  left = v.left;
  parts = v.parts;
  versions = v.versions;
  scripts = v.scripts;
  complete = λ k. none_left v.applied v.left v.parts;
}
migrate_all-Stage b fails visited (m ∷ ms) s v =
    next_move b fails m ms visited v.applied v.left s
      (λ visited' s' v'. migrate_all-Stage b fails visited' ms s' v') v.parts v.versions v.scripts
      v.distinct
