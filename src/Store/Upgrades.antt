-- ===== src/Store/Upgrades.antt =====
-- Two migrations, of which one is due (backend/internal/store/migrate.go).
use auto_seed_relay.Prelude.{ℕ, ◌≡◌, ◌<◌, ◌++◌, true, List, [], ◌∷◌, String}
use auto_seed_relay.Store.Migrate.{Migration, Schema, migrate_fs, sort_migrations, pieces, at_top}
use auto_seed_relay.Store.Split.{char_codes, joined, has_version}
use auto_seed_relay.Store.Due.{due_after}
use auto_seed_relay.Store.Migrated.{scripts, migrate_resumes}

abbrev untrimmed : String → String
untrimmed s = s

abbrev files : List Migration
files =
    record { version = 2; sql = "ALTER TABLE t ADD c" }
    ∷ record { version = 1; sql = "CREATE TABLE t (a); INSERT INTO t VALUES (';')" }
    ∷ []

abbrev schema : Schema
schema = record { executed = []; version = 1; faults = [] }

migrate_resumes_example :
    let r = migrate_fs untrimmed files schema in
    let sorted = sort_migrations files in
    ((done : List Migration) × (left : List Migration) × (due_after schema.version sorted
        ≡ done ++ left)
      × (r.0.executed ≡ schema.executed ++ scripts untrimmed done)
      × (due_after r.0.version sorted ≡ left)
      × (r.1 ≡ true → left ≡ []))
    × (schema.faults ≡ [] → r.1 ≡ true)
    × ((v : ℕ)
        → has_version v files ≡ true
        → schema.version < v
        → has_version v (due_after schema.version sorted) ≡ true)
    × ((script : String) → joined (pieces at_top "" script) ≡ char_codes script)
migrate_resumes_example = migrate_resumes untrimmed files schema
