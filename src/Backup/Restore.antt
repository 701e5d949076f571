-- ===== src/Backup/Restore.antt =====
-- `Restore` of backend/internal/backup/backup.go and `ValidateZip` of validate.go. A file is what it holds,
-- of any type `F`. What SQLite and JSON say of a file are arguments, as is the schema version that the
-- binary supports. Whether the next steps on the file system fail is a list.
use text.Mathlib.Text.{◌==◌ as str_eq}
use auto_seed_relay.Prelude.{
  ℕ, ◌*◌, ◌^◌, Bool, true, false, List, [], ◌∷◌, ◌++◌, Option, none, some, String, if◌then◌else◌,
  leb, ◌⊎◌, inl, inr, any, not,
}
use auto_seed_relay.Prelude.Int.{ℤ, pos, negsuc}
use auto_seed_relay.Store.Rows.{next_fault, later_faults}

-- 1 MiB for meta.json, 512 MiB for the database and for the archive.
abbrev pub max_meta_size : ℕ
max_meta_size = 2 ^ 20

abbrev pub max_db_bytes : ℕ
max_db_bytes = 512 * 2 ^ 20

abbrev pub max_backup_bytes : ℕ
max_backup_bytes = 512 * 2 ^ 20

pub data BackupError : Type 0 where
  cannot_read too_large invalid_zip missing_entry invalid_meta invalid_version newer_version :
      BackupError
  file_error extract_failed open_failed unhealthy reopen_failed not_sqlite : BackupError

-- An entry of the archive: its declared size, what it holds if it can be read to its end, how many bytes
-- that is, and whether its first bytes can be read and are the magic of SQLite.
pub record ZipEntry (F : Type 0) : Type 0 where
  pub name : String
  pub declared : ℕ
  pub body : Option F
  pub size : ℕ
  pub has_magic : Bool

pub data Upload (F : Type 0) : Type 0 where
  unreadable : Upload F
  archive : ℕ → Option (List (ZipEntry F)) → Upload F

-- The database, and the copies of earlier ones, in which none is an incomplete copy.
pub record Disk (F : Type 0) : Type 0 where
  pub live : Option F
  pub backups : List (Option F)
  pub faults : List Bool

-- What the libraries say of a file: the schema version in meta.json, that in a database, what the
-- integrity check answers, and what opening it leaves of it and whether it could be opened.
pub record Files (F : Type 0) : Type 0 where
  pub meta_version : F → Option ℤ
  pub user_version : F → Option ℤ
  pub integrity : F → Option (List String)
  pub open_store : F → F × Bool

abbrev pub RestoreResult : Type 0 → Type 0
RestoreResult F = Disk F × Option BackupError

abbrev pub spent : {F : Type 0} → Disk F → Disk F
spent d = record d { faults = later_faults d.faults }

-- A disk_step on the file system that may fail, and what follows it.
unfoldable pub disk_step :
    {F : Type 0} → BackupError → (Disk F → RestoreResult F) → Disk F → RestoreResult F
disk_step e next d = if next_fault d.faults then (spent d, some e) else next (spent d)

abbrev pub unless_error :
    {F : Type 0} → Option BackupError → (Disk F → RestoreResult F) → Disk F → RestoreResult F
unless_error none next d = next d
unless_error (some e) next d = (d, some e)

abbrev pub first_error : Option BackupError → Option BackupError → Option BackupError
first_error none e = e
first_error (some e) f = some e

-- The last entry with a name.
unfoldable pub find_entry :
    {F : Type 0} → String → Option (ZipEntry F) → List (ZipEntry F) → Option (ZipEntry F)
find_entry name found [] = found
find_entry name found (x ∷ xs) = find_entry name (if str_eq x.name name then some x else found) xs

unfoldable pub check_version : ℕ → ℤ → Option BackupError
check_version current (negsuc n) = some invalid_version
check_version current (pos n) =
    if leb 1 n then if leb n current then none else some newer_version else some invalid_version

abbrev pub is_newer : ℕ → ℤ → Bool
is_newer current (negsuc n) = false
is_newer current (pos n) = not (leb n current)

abbrev pub all_ok : List String → Bool
all_ok rows = not (any (λ s. not (str_eq s "ok")) rows)

abbrev pub check_integrity : Option (List String) → Option BackupError
check_integrity none = some unhealthy
check_integrity (some rows) = if all_ok rows then none else some unhealthy

abbrev pub parsed_meta : Option ℤ → BackupError ⊎ ℤ
parsed_meta none = inl invalid_meta
parsed_meta (some v) = inr v

abbrev pub extracted_body : {F : Type 0} → ℕ → Option F → BackupError ⊎ F
extracted_body size none = inl extract_failed
extracted_body size (some f) = if leb size max_db_bytes then inr f else inl too_large

-- What `validateRestoredDB` makes of the answers to its two pragmas.
abbrev pub judge_restored : ℕ → Option ℤ → Option (List String) → Option BackupError
judge_restored current none rows = some open_failed
judge_restored current (some v) rows =
    if is_newer current v then some newer_version else check_integrity rows

-- The check after the database was opened again, with its schema version.
abbrev pub judge_reopened : ℕ → Bool → Option ℤ → Option BackupError
judge_reopened current false v = some reopen_failed
judge_reopened current true none = some reopen_failed
judge_reopened current true (some v) = if is_newer current v then some newer_version else none

module _ {F : Type 0} (files : Files F) (current : ℕ) where
  abbrev pub meta_of : Option F → BackupError ⊎ ℤ
  meta_of none = inl invalid_meta
  meta_of (some f) = parsed_meta (files.meta_version f)

  -- `readZipJSON`
  unfoldable pub read_meta : ZipEntry F → BackupError ⊎ ℤ
  read_meta m = if leb m.declared max_meta_size then meta_of m.body else inl too_large

  unfoldable pub checked_meta : BackupError ⊎ ℤ → Option BackupError
  checked_meta (inl e) = some e
  checked_meta (inr v) = check_version current v

  -- `checkSQLiteHeader`
  unfoldable pub check_header : ZipEntry F → Option BackupError
  check_header x =
      if leb x.declared max_db_bytes
      then if x.has_magic then none else some not_sqlite
      else some too_large

  unfoldable pub validate_entries : Option (ZipEntry F) → Option (ZipEntry F) → Option BackupError
  validate_entries none x = some missing_entry
  validate_entries (some m) none = some missing_entry
  validate_entries (some m) (some x) = first_error (checked_meta (read_meta m)) (check_header x)

  unfoldable pub validate_archive : Option (List (ZipEntry F)) → Option BackupError
  validate_archive none = some invalid_zip
  validate_archive (some entries) =
      validate_entries (find_entry "meta.json" none entries) (find_entry "relay.db" none entries)

  -- `ValidateZip`
  unfoldable pub validate_zip : Upload F → Option BackupError
  validate_zip unreadable = some cannot_read
  validate_zip (archive size zip) =
      if leb size max_backup_bytes then validate_archive zip else some too_large

  -- `writeZipFile`
  unfoldable pub extracted : ZipEntry F → BackupError ⊎ F
  extracted x = if leb x.declared max_db_bytes then extracted_body x.size x.body else inl too_large

  -- `validateRestoredDB`
  unfoldable pub validate_restored : F → Option BackupError
  validate_restored f = judge_restored current (files.user_version f) (files.integrity f)

  -- `autoBackup`: nothing without a database; otherwise the directory and the copy, which may stay
  -- incomplete.
  unfoldable pub copy_live : F → (Disk F → RestoreResult F) → Disk F → RestoreResult F
  copy_live old next d =
      let copied = next (record (spent d) { backups = d.backups ++ some old ∷ [] }) in
      if next_fault d.faults
      then (record (spent d) { backups = d.backups ++ none ∷ [] }, some file_error)
      else copied

  unfoldable pub auto_backup : Option F → (Disk F → RestoreResult F) → Disk F → RestoreResult F
  auto_backup none next d = next d
  auto_backup (some old) next d = disk_step file_error (copy_live old next) d

  unfoldable pub reopen_store : F → Disk F → RestoreResult F
  reopen_store f d =
      let (f', opened) = files.open_store f in
      (record d { live = some f' }, judge_reopened current opened (files.user_version f'))

  unfoldable pub swap : F → Disk F → RestoreResult F
  swap f d = disk_step file_error (λ d'. reopen_store f (record d' { live = some f })) d

  unfoldable pub install : F → Disk F → RestoreResult F
  install f d =
      unless_error (validate_restored f) (disk_step file_error (auto_backup d.live (swap f))) d

  abbrev pub write_entry : BackupError ⊎ F → Disk F → RestoreResult F
  write_entry (inl e) d = (d, some e)
  write_entry (inr f) d = disk_step file_error (install f) d

  -- The directory, the temporary file, its content and its closing.
  unfoldable pub extract : ZipEntry F → Disk F → RestoreResult F
  extract x = disk_step file_error (disk_step file_error (write_entry (extracted x)))

  unfoldable pub restore_entries :
      Option (ZipEntry F) → Option (ZipEntry F) → Disk F → RestoreResult F
  restore_entries none x d = (d, some missing_entry)
  restore_entries (some m) none d = (d, some missing_entry)
  restore_entries (some m) (some x) d = unless_error (checked_meta (read_meta m)) (extract x) d

  unfoldable pub restore_archive : Option (List (ZipEntry F)) → Disk F → RestoreResult F
  restore_archive none d = (d, some invalid_zip)
  restore_archive (some entries) d =
      restore_entries (find_entry "meta.json" none entries) (find_entry "relay.db" none entries) d

  -- `Restore`
  unfoldable pub restore : Upload F → Disk F → RestoreResult F
  restore unreadable d = (d, some cannot_read)
  restore (archive size zip) d =
      if leb size max_backup_bytes then restore_archive zip d else (d, some too_large)
