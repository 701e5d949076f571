-- ===== src/Backup/Scenarios.antt =====
-- An archive that is restored over a database (backend/internal/backup). A file is a number: its schema
-- version.
use auto_seed_relay.Prelude.{ℕ, ◌≡◌, ◌⊎◌, refl, true, [], ◌∷◌, none, some, String}
use auto_seed_relay.Prelude.Int.{pos}
use auto_seed_relay.Backup.Restore.{
  ZipEntry, Upload, archive, Disk, Files, restore, validate_zip, find_entry, restore_archive,
  restore_entries, checked_meta, read_meta, check_version, extract, disk_step, extracted, install,
  validate_restored, auto_backup, copy_live, swap, reopen_store,
}
use auto_seed_relay.Backup.Safe.{IsUntouched, IsReplaced}
use auto_seed_relay.Backup.Restored.{IsAdmitted, restore_safe}

abbrev numbers : Files ℕ
numbers = record {
  meta_version = λ f. some (pos f);
  user_version = λ f. some (pos f);
  integrity = λ f. some ("ok" ∷ []);
  open_store = λ f. (6, true);
}

abbrev entry_of : String → ℕ → ZipEntry ℕ
entry_of name f = record { name = name; declared = 40; body = some f; size = 40; has_magic = true }

abbrev upload : Upload ℕ
upload = archive 100 (some (entry_of "meta.json" 4 ∷ entry_of "relay.db" 4 ∷ []))

abbrev disk : Disk ℕ
disk = record { live = some 5; backups = []; faults = [] }

restore_safe_example :
    let o = restore numbers 6 upload disk in
    (((f : ℕ) × IsAdmitted numbers 6 upload f × IsReplaced numbers 6 disk f o)
      ⊎ (IsUntouched numbers 6 disk o
          × (disk.faults ≡ [] → (f : ℕ) → ¬ IsAdmitted numbers 6 upload f)))
    × ((f : ℕ) (a : IsAdmitted numbers 6 upload f)
        → a.database.has_magic ≡ true
        → validate_zip numbers 6 upload ≡ none)
restore_safe_example = restore_safe numbers 6 disk upload

-- It is restored, and the copy of the database is kept.
restored :
    restore numbers 6 upload disk
    ≡ (record { live = some 6; backups = some 5 ∷ []; faults = [] }, none)
unfolding restore restore_archive restore_entries find_entry checked_meta read_meta check_version
    extract disk_step extracted install validate_restored auto_backup copy_live swap reopen_store
restored = refl
