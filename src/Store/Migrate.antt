-- ===== src/Store/Migrate.antt =====
-- The migrations of backend/internal/store/migrate.go, for the files that were found, and `splitStatements`.
-- `trim` removes surrounding white space. The database is what was executed on it and its version; whether
-- the next steps fail is a list. Files of the same version may be sorted either way; here the order of
-- the directory is kept.
use Prim.Native.String.{String, [] as no_text, ◌∷◌ as ◌▹◌}
use Prim.Native.Char.{Char, code}
use text.Mathlib.Text.{◌==◌ as str_eq}
use auto_seed_relay.Prelude.{
  ℕ, Bool, true, false, List, [], ◌∷◌, ◌++◌, if◌then◌else◌, leb, ◌==◌, ◌&&◌,
}
use auto_seed_relay.Store.Rows.{next_fault, later_faults}

-- Where the loop of `splitStatements` is: at the top level, in a line comment, in a literal, or at the second
-- quote of two in a literal.
pub data Mode : Type 0 where
  at_top in_comment in_literal at_escape : Mode

abbrev pub starts_code : ℕ → String → Bool
starts_code n no_text = false
starts_code n (c ▹ s) = code c == n

-- 45 is the dash, 39 the single quote, 59 the semicolon and 10 the line feed.
unfoldable pub next_mode : Mode → Char → String → Mode
next_mode at_top c s =
    if (code c == 45) && starts_code 45 s
    then in_comment
    else if code c == 39
    then in_literal
    else at_top
next_mode in_comment c s = if code c == 10 then at_top else in_comment
next_mode in_literal c s =
    if code c == 39 then if starts_code 39 s then at_escape else at_top else in_literal
next_mode at_escape c s = in_literal

abbrev pub ends_statement : Mode → Char → Bool
ends_statement at_top c = code c == 59
ends_statement in_comment c = false
ends_statement in_literal c = false
ends_statement at_escape c = false

abbrev pub snoc : String → Char → String
snoc no_text c = c ▹ no_text
snoc (d ▹ s) c = d ▹ snoc s c

-- The pieces between the semicolons, for the piece read so far.
unfoldable pub pieces : Mode → String → String → List String
pieces mode cur no_text = cur ∷ []
pieces mode cur (c ▹ s) =
    let ends = ends_statement mode c in
    let rest = pieces (next_mode mode c s) (if ends then no_text else snoc cur c) s in
    if ends then cur ∷ rest else rest

unfoldable pub trimmed : (String → String) → List String → List String
trimmed trim [] = []
trimmed trim (p ∷ ps) =
    let rest = trimmed trim ps in if str_eq (trim p) "" then rest else trim p ∷ rest

-- `splitStatements`
unfoldable pub split_statements : (String → String) → String → List String
split_statements trim script = trimmed trim (pieces at_top no_text script)

pub record Migration : Type 0 where
  pub version : ℕ
  pub sql : String

pub record Schema : Type 0 where
  pub executed : List String
  pub version : ℕ
  pub faults : List Bool

abbrev pub after_step : Schema → Schema
after_step d = record d { faults = later_faults d.faults }

unfoldable pub exec_each : List String → Schema → Schema × Bool
exec_each [] d = (d, true)
exec_each (s ∷ ss) d =
    let rest = exec_each ss (record (after_step d) { executed = d.executed ++ s ∷ [] }) in
    if next_fault d.faults then (after_step d, false) else rest

-- The version and the commit.
unfoldable pub finish_migration : ℕ → Schema × Bool → Schema × Bool
finish_migration version (d, false) = (d, false)
finish_migration version (d, true) =
    let d' = record (after_step d) { version = version } in
    let done = if next_fault d'.faults then (after_step d', false) else (after_step d', true) in
    if next_fault d.faults then (after_step d, false) else done

-- An error rolls the transaction back.
abbrev pub roll_back : Schema → Schema × Bool → Schema × Bool
roll_back before (d, true) = (d, true)
roll_back before (d, false) = (record before { faults = d.faults }, false)

-- `applyMigration`
unfoldable pub apply_migration : (String → String) → Migration → Schema → Schema × Bool
apply_migration trim m d =
    let ran = exec_each (split_statements trim m.sql) (after_step d) in
    if next_fault d.faults
    then (after_step d, false)
    else roll_back d (finish_migration m.version ran)

unfoldable pub insert_migration : Migration → List Migration → List Migration
insert_migration m [] = m ∷ []
insert_migration m (n ∷ ms) =
    if leb m.version n.version then m ∷ n ∷ ms else n ∷ insert_migration m ms

unfoldable pub sort_migrations : List Migration → List Migration
sort_migrations [] = []
sort_migrations (m ∷ ms) = insert_migration m (sort_migrations ms)

abbrev pub next_migration : (ℕ → Schema → Schema × Bool) → ℕ → Schema × Bool → Schema × Bool
next_migration next version (d, true) = next version d
next_migration next version (d, false) = (d, false)

-- The loop of `migrateFS`, with the current version.
unfoldable pub migrate_each : (String → String) → List Migration → ℕ → Schema → Schema × Bool
migrate_each trim [] current d = (d, true)
migrate_each trim (m ∷ ms) current d =
    let skipped = migrate_each trim ms current d in
    let applied = next_migration (migrate_each trim ms) m.version (apply_migration trim m d) in
    if leb m.version current then skipped else applied

-- `migrateFS`
unfoldable pub migrate_fs : (String → String) → List Migration → Schema → Schema × Bool
migrate_fs trim ms d =
    let ran = migrate_each trim (sort_migrations ms) d.version (after_step d) in
    if next_fault d.faults then (after_step d, false) else ran
