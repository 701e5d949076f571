-- ===== src/Backup/Restored.antt =====
-- What a restore leaves (backend/internal/backup).
use auto_seed_relay.Prelude.{
  ℕ, ◌≤◌, ◌≡◌, refl, ap, ◌∙◌, sym, true, List, [], Option, none, some, String, arith, leb, leb→le,
  le→leb, Bool-cases, Option-cases, inl, inr, ◌⊎◌, append-nil, subst, some_inj,
}
use auto_seed_relay.Backup.Restore.{
  max_backup_bytes, BackupError, missing_entry, invalid_zip, cannot_read, too_large, ZipEntry,
  Upload, unreadable, archive, Disk, Files, RestoreResult, find_entry, read_meta, checked_meta,
  restore_entries, restore_archive, restore, validate_zip, check_header, validate_entries,
  validate_archive,
}
use auto_seed_relay.Backup.Admitted.{IsMeta, IsHealthy, checked-IsMeta, IsMeta-checked}
use auto_seed_relay.Backup.Safe.{
  IsAt, IsSettled, IsUntouched, IsReplaced, Extracts, extract-Extracts,
}

module _ {F : Type 0} (files : Files F) (current : ℕ) where
  -- The upload is an archive of at most 512 MiB with metadata and with a database that is this file.
  pub record IsAdmitted (u : Upload F) (f : F) : Type 0 where
    pub size : ℕ
    pub entries : List (ZipEntry F)
    pub is_archive : u ≡ archive size (some entries)
    pub small : size ≤ max_backup_bytes
    pub meta : ZipEntry F
    pub database : ZipEntry F
    pub has_meta : find_entry "meta.json" none entries ≡ some meta
    pub has_database : find_entry "relay.db" none entries ≡ some database
    pub valid : IsMeta files current meta
    pub healthy : IsHealthy files current database f

  entries_of :
      (size : ℕ) (zip : Option (List (ZipEntry F))) (f : F) (a : IsAdmitted (archive size zip) f)
      → (zip ≡ some a.entries) × (size ≡ a.size)
  entries_of size zip f a = let e = a.is_archive in (cc, cc)

  found :
      (name : String) (size : ℕ) (entries : List (ZipEntry F)) (f : F)
      (a : IsAdmitted (archive size (some entries)) f)
      → find_entry name none entries ≡ find_entry name none a.entries
  found name size entries f a =
      ap (find_entry name none) (some_inj (entries_of size (some entries) f a).0)

  module _ (before : Disk F) where
    abbrev Restores : Upload F → RestoreResult F → Type 0
    Restores u o =
        ((f : F) × IsAdmitted u f × IsReplaced files current before f o)
        ⊎ (IsUntouched files current before o × (before.faults ≡ [] → (f : F) → ¬ IsAdmitted u f))

    refused-Restores :
        (u : Upload F) (e : BackupError)
        → ((f : F) → ¬ IsAdmitted u f)
        → Restores u (before, some e)
    refused-Restores u e h = inr (
      record { live = refl; failed = λ k. cc; more = []; copies = sym (append-nil before.backups) },
      λ c. h,
    )

    untouched_yet : IsAt files current before before.backups before
    untouched_yet = record { live = refl; same = refl; clean = λ c. c }

    entries-Restores :
        (size : ℕ) (entries : List (ZipEntry F)) (m x : Option (ZipEntry F))
        → size ≤ max_backup_bytes
        → find_entry "meta.json" none entries ≡ m
        → find_entry "relay.db" none entries ≡ x
        → Restores (archive size (some entries)) (restore_entries files current m x before)
    unfolding restore_entries Extracts IsSettled
    entries-Restores size entries none x s h k =
        refused-Restores _ missing_entry
          (λ f a. let l = sym h ∙ found "meta.json" size entries f a ∙ a.has_meta in absurd cc)
    entries-Restores size entries (some m) none s h k =
        refused-Restores _ missing_entry
          (λ f a. let l = sym k ∙ found "relay.db" size entries f a ∙ a.has_database in absurd cc)
    entries-Restores size entries (some m) (some x) s h k =
        elim (Option-cases (checked_meta files current (read_meta files current m))) [
          | inr (e, bad) ↦ rw bad (
              refused-Restores _ e (λ f a.
                let same : m ≡ a.meta =
                  some_inj (sym h ∙ found "meta.json" size entries f a ∙ a.has_meta) in
                let l = IsMeta-checked files current a.meta a.valid in
                let n = rw (sym same) at l in absurd cc))
          | inl fine ↦
              rw fine (elim (extract-Extracts files current before x before untouched_yet) [
                | inl (f, g, done) ↦ elim done [
                  | inl (u, bad) ↦ inr (u, λ c. absurd (bad c))
                  | inr r ↦ inl (
                    f,
                    record {
                      size = size;
                      entries = entries;
                      is_archive = refl;
                      small = s;
                      meta = m;
                      database = x;
                      has_meta = h;
                      has_database = k;
                      valid = checked-IsMeta files current m fine;
                      healthy = g;
                    },
                    r,
                  )
                ]
                | inr (u, bad) ↦ inr (
                  u,
                  λ c f a.
                      let same : a.database ≡ x =
                        some_inj
                          (sym a.has_database ∙ sym (found "relay.db" size entries f a) ∙ k) in
                      bad c f (subst (λ y. IsHealthy files current y f) same a.healthy),
                )
              ])
        ]

    archive-Restores :
        (size : ℕ) (zip : Option (List (ZipEntry F)))
        → size ≤ max_backup_bytes
        → Restores (archive size zip) (restore_archive files current zip before)
    unfolding restore_archive
    archive-Restores size none s =
        refused-Restores _ invalid_zip (λ f a. let l = (entries_of size none f a).0 in absurd cc)
    archive-Restores size (some entries) s = entries-Restores size entries _ _ s refl refl

    restore-Restores : (u : Upload F) → Restores u (restore files current u before)
    unfolding restore
    restore-Restores unreadable =
        refused-Restores _ cannot_read (λ f a. let l = a.is_archive in absurd cc)
    restore-Restores (archive size zip) = elim (Bool-cases (leb size max_backup_bytes)) [
      | inl small ↦ rw small (archive-Restores size zip (leb→le _ _ small))
      | inr large ↦ rw large (
          refused-Restores _ too_large (λ f a.
            let l = (entries_of size zip f a).1 in let m = a.small in absurd (ground arith)))
    ]

    admitted-validates :
        (u : Upload F) (f : F) (a : IsAdmitted u f)
        → a.database.has_magic ≡ true
        → validate_zip files current u ≡ none
    unfolding validate_zip validate_archive validate_entries check_header
    admitted-validates u f a h =
        rw
          (
            a.is_archive,
            le→leb _ _ a.small,
            a.has_meta,
            a.has_database,
            IsMeta-checked files current a.meta a.valid,
            le→leb _ _ a.healthy.declared,
            h,
          )
          refl

    -- Whichever steps fail, a restore either installs a database that was admitted, which is healthy and no
    -- newer than the binary, with the database that it replaces as the last of the copies, and then it
    -- succeeds exactly if the database could be opened and is no newer; or it returns an error, the
    -- database is as before and no copy is lost, which without a fault happens only if the upload is not
    -- admitted. An upload that is admitted also passes the check at its upload, if its database begins
    -- with the magic of SQLite.
    pub restore_safe :
        (u : Upload F)
        → let o = restore files current u before in
          (((f : F) × IsAdmitted u f × IsReplaced files current before f o)
            ⊎ (IsUntouched files current before o
                × (before.faults ≡ [] → (f : F) → ¬ IsAdmitted u f)))
          × ((f : F) (a : IsAdmitted u f)
              → a.database.has_magic ≡ true
              → validate_zip files current u ≡ none)
    restore_safe u = (restore-Restores u, admitted-validates u)
