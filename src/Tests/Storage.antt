-- ===== src/Tests/Storage.antt =====
-- The two stores as logs, their migrations, and the start of a store.
use chatster.Prelude.Int.{pos}
use chatster.Prelude.{
  Bool, List, [], contains, false, leb→le, list_beq, ok, refl, true, ℕ, ◌==◌, ◌∷◌, ◌≡◌, nat_eq,
  list_eq,
}
use chatster.Text.{Text, codes, is_space, is_upper, lower_rune, trim_left, trim_right, trim_space}
use chatster.Db.Room.{normalize_room}
use chatster.Db.Rows.{Time}
use chatster.Db.Log.{LogReach, log_recent}
use chatster.Db.Contract.{answered, empty_log, log_execute_all}
use chatster.Db.Postgres.Steps.{pg_clock, pg_execute_all, pg_state, pg_steps}
use chatster.Db.Sqlite.{
  bad_room, first_layout, fresh, get_recent_messages_in_room, parse_msg_timestamp,
}
use chatster.Db.Sqlite.Invariant.{Statement, execute_all, prune_messages, save_message}
use chatster.Db.Sqlite.Steps.{sqlite_clock, state_of, steps_of}
use chatster.Db.Sqlite.Clock.{KeepsTime, log_of}
use chatster.Db.Sqlite.Refinement.{IsTimely, execute_all-refines}
use chatster.Db.Postgres.{PgFaults, new_database, reply_lost}
use chatster.Db.Postgres.Refinement.{AnswersAsLog, Timely, no_fault, pg_execute_all-refines}
use chatster.Db.Migrations.{
  MigrationFaults, Schema, all_migrations, finish, migrate_all, migrate_postgres, no_schema,
  postgres, run_migrations, script, sqlite,
}
use chatster.Db.Migrations.Resuming.{IsPartial, run_all, run_migrations-resumes}
use chatster.Db.Repository.{
  Backends, StorageConfig, connect_postgres, migrated, open_postgres, open_repository,
}
use chatster.Db.Repository.Opening.{Chosen, open_repository-Chosen}
use chatster.Tests.Store.{four_saves, lobby}
use chatster.Tests.Codecs.{ascii, one_rune}

one_rune-KeepsTime : KeepsTime one_rune
unfolding parse_msg_timestamp first_layout
one_rune-KeepsTime = record { parses = λ t. refl; formats = λ t. refl; monotone = λ t t' h. h }

four_saves-IsTimely : IsTimely 0 four_saves
four_saves-IsTimely =
    (leb→le 0 10 refl, (leb→le 10 20 refl, (leb→le 20 20 refl, (leb→le 20 20 refl, tt))))

execute_all-refines_example :
    (state_of (execute_all four_saves fresh)
      ≡ log_execute_all sqlite_clock (steps_of four_saves) empty_log)
    × LogReach [] (log_of (execute_all four_saves fresh))
    × ((room : Text) (limit : ℕ) (now : Time)
        → get_recent_messages_in_room (λ c. false) now room limit (execute_all four_saves fresh)
          ≡ answered bad_room
              (normalize_room room)
              (λ c. log_recent c limit (log_of (execute_all four_saves fresh))))
execute_all-refines_example = execute_all-refines four_saves one_rune-KeepsTime four_saves-IsTimely

abbrev loses_reply : PgFaults
loses_reply c = elim c [ reply_lost ↦ true | _ ↦ false ]

-- Two messages, the reply to the second one lost, and a deletion.
abbrev three_statements : List (PgFaults × Time × ℕ × Statement)
three_statements =
    (no_fault, 10, 0, save_message lobby [] (codes "Ann") (codes "one") (codes "message"))
    ∷ (loses_reply, 20, 4, save_message lobby [] (codes "Bob") (codes "two") (codes "message"))
    ∷ (no_fault, 30, 0, prune_messages 15)
    ∷ []

three_statements-Timely : Timely 0 three_statements
three_statements-Timely = (leb→le 0 10 refl, (leb→le 10 20 refl, (leb→le 20 30 refl, tt)))

pg_execute_all-refines_example :
    (pg_state (pg_execute_all three_statements new_database)
      ≡ log_execute_all pg_clock (pg_steps three_statements) empty_log)
    × LogReach [] (pg_execute_all three_statements new_database).rows
    × AnswersAsLog (pg_execute_all three_statements new_database)
pg_execute_all-refines_example = pg_execute_all-refines three_statements three_statements-Timely

-- A start whose third script fails.
abbrev third_fails : MigrationFaults
third_fails m c = elim c [ script ↦ m == 3 | _ ↦ false ]

run_migrations-resumes_example :
    IsPartial (run_all sqlite ((false, third_fails) ∷ []) no_schema)
    × ((t : Bool) (fails : MigrationFaults)
        → (run_migrations sqlite t fails (run_all sqlite ((false, third_fails) ∷ []) no_schema)).0
          ≡ ok tt
        → (run_migrations sqlite t fails
            (run_all sqlite ((false, third_fails) ∷ []) no_schema)).1.scripts
          ≡ all_migrations)
    × ((run_migrations sqlite false
          (λ m c. false)
          (run_all sqlite ((false, third_fails) ∷ []) no_schema)).0
        ≡ ok tt)
run_migrations-resumes_example = run_migrations-resumes sqlite ((false, third_fails) ∷ [])

abbrev healthy : Backends
healthy = record {
  sqlite_opens = λ p. true;
  pragma_fails = λ p. false;
  sqlite_pings = true;
  parses_dsn = λ s. true;
  pool_made = true;
  postgres_pings = true;
  table_fails = false;
  migration_fails = λ m c. false;
}

abbrev on_pool : StorageConfig
on_pool = record {
  storage = codes " Postgres";
  sqlite_path = [];
  postgres_dsn = codes "postgres://chat";
  postgres_min_conns = pos 0;
  postgres_max_conns = pos 4;
}

abbrev half_way : Schema
half_way = record { versions = 1 ∷ 2 ∷ 3 ∷ []; scripts = 1 ∷ 2 ∷ 3 ∷ [] }

abbrev whole : Schema
whole = record { versions = all_migrations; scripts = all_migrations }

half_way-IsPartial : IsPartial half_way
half_way-IsPartial = (1 ∷ 2 ∷ 3 ∷ [], 4 ∷ 5 ∷ 6 ∷ [], refl, refl, refl)

pool_opened : open_repository healthy on_pool half_way ≡ (ok postgres, whole)
unfolding open_repository open_postgres connect_postgres run_migrations migrate_all migrate_postgres
    finish migrated contains list_beq trim_space trim_left trim_right is_space lower_rune is_upper
pool_opened = refl

open_repository-Chosen_example : Chosen on_pool postgres × (whole.scripts ≡ all_migrations)
open_repository-Chosen_example =
    open_repository-Chosen healthy on_pool postgres half_way whole half_way-IsPartial pool_opened
