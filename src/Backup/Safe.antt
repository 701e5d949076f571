-- ===== src/Backup/Safe.antt =====
-- A restore with any faults (backend/internal/backup).
use auto_seed_relay.Prelude.{
  ℕ, ◌≡◌, ◌≢◌, refl, ap, ◌∙◌, sym, true, List, [], ◌∷◌, ◌++◌, Option, none, some, Bool-cases,
  Option-cases, inl, inr, ◌⊎◌, append-nil, subst,
}
use auto_seed_relay.Store.Rows.{next_fault, later_faults}
use auto_seed_relay.Backup.Restore.{
  BackupError, file_error, ZipEntry, Disk, Files, RestoreResult, spent, disk_step, judge_reopened,
  extracted, validate_restored, copy_live, auto_backup, reopen_store, swap, install, write_entry,
  extract,
}
use auto_seed_relay.Backup.Admitted.{IsHealthy, taken-IsHealthy, IsHealthy-taken}

step_lem :
    {F : Type 0} (P : RestoreResult F → Type 0) (e : BackupError) (next : Disk F → RestoreResult F)
    (d : Disk F)
    → (next_fault d.faults ≡ true → P (spent d, some e))
    → P (next (spent d))
    → P (disk_step e next d)
unfolding disk_step
step_lem P e next d bad fine = elim (Bool-cases (next_fault d.faults)) [
  | inl fault ↦ rw fault (bad fault)
  | inr none_yet ↦ rw none_yet fine
]

inr_inj : {A B : Type 0} (s : A ⊎ B) {a b : B} → s ≡ inr a → s ≡ inr b → a ≡ b
inr_inj s h k = cc

-- The copies when the database is replaced: that of the database, if there was one, is the last.
abbrev pub kept_copies : {F : Type 0} → Option F → List (Option F) → List (Option F)
kept_copies none copies = copies
kept_copies (some old) copies = copies ++ some old ∷ []

module _ {F : Type 0} (files : Files F) (current : ℕ) (before : Disk F) where
  -- The database is as before and no copy is lost.
  pub record IsUntouched (o : RestoreResult F) : Type 0 where
    pub live : o.0.live ≡ before.live
    pub failed : o.1 ≢ none
    pub more : List (Option F)
    pub copies : o.0.backups ≡ before.backups ++ more

  -- The database is the file, as opening it leaves it, and the copies have the one that it replaced.
  pub record IsReplaced (f : F) (o : RestoreResult F) : Type 0 where
    pub live : o.0.live ≡ some (files.open_store f).0
    pub copies : o.0.backups ≡ kept_copies before.live before.backups
    pub result :
        o.1
        ≡ judge_reopened current (files.open_store f).1 (files.user_version (files.open_store f).0)

  unfoldable pub IsSettled : F → RestoreResult F → Type 0
  IsSettled f o = (IsUntouched o × (before.faults ≢ [])) ⊎ IsReplaced f o

  pub record IsAt (copies : List (Option F)) (d : Disk F) : Type 0 where
    pub live : d.live ≡ before.live
    pub same : d.backups ≡ copies
    pub clean : before.faults ≡ [] → d.faults ≡ []

  spent-IsAt : (copies : List (Option F)) (d : Disk F) → IsAt copies d → IsAt copies (spent d)
  spent-IsAt copies d a = record {
    live = a.live;
    same = a.same;
    clean = λ c. ap later_faults (a.clean c);
  }

  not_clean :
      {d : Disk F} {copies : List (Option F)}
      → IsAt copies d
      → next_fault d.faults ≡ true
      → before.faults ≢ []
  not_clean a bad c = let k = ap next_fault (a.clean c) in cc

  stopped :
      (f : F) (e : BackupError) (d : Disk F) (more : List (Option F))
      → IsAt (before.backups ++ more) d
      → before.faults ≢ []
      → IsSettled f (d, some e)
  unfolding IsSettled
  stopped f e d more a bad =
      inl (record { live = a.live; failed = λ h. cc; more = more; copies = a.same }, bad)

  swap-IsSettled :
      (f : F) (d : Disk F) (more : List (Option F))
      → IsAt (before.backups ++ more) d
      → before.backups ++ more ≡ kept_copies before.live before.backups
      → IsSettled f (swap files current f d)
  unfolding IsSettled swap reopen_store
  swap-IsSettled f d more a k =
      step_lem (IsSettled f) file_error _ d
        (λ bad. stopped f file_error (spent d) more (spent-IsAt _ d a) (not_clean a bad))
        (inr (record { live = refl; copies = a.same ∙ k; result = refl }))

  untouched_yet : {d : Disk F} → IsAt before.backups d → IsAt (before.backups ++ []) d
  untouched_yet a = record {
    live = a.live;
    same = a.same ∙ sym (append-nil before.backups);
    clean = a.clean;
  }

  copy_live-IsSettled :
      (f old : F) (d : Disk F)
      → IsAt before.backups d
      → before.live ≡ some old
      → IsSettled f (copy_live files current old (swap files current f) d)
  unfolding IsSettled copy_live
  copy_live-IsSettled f old d a k = elim (Bool-cases (next_fault d.faults)) [
    | inl bad ↦ rw bad (
        stopped f file_error (record (spent d) { backups = d.backups ++ none ∷ [] }) (none ∷ [])
          (record {
            live = a.live;
            same = ap (λ c. c ++ none ∷ []) a.same;
            clean = λ c. ap later_faults (a.clean c);
          })
          (not_clean a bad))
    | inr fine ↦ rw fine (
        swap-IsSettled f (record (spent d) { backups = d.backups ++ some old ∷ [] }) (some old ∷ [])
          (record {
            live = a.live;
            same = ap (λ c. c ++ some old ∷ []) a.same;
            clean = λ c. ap later_faults (a.clean c);
          })
          (rw k refl))
  ]

  auto_backup-IsSettled :
      (f : F) (live : Option F) (d : Disk F)
      → IsAt before.backups d
      → before.live ≡ live
      → IsSettled f (auto_backup files current live (swap files current f) d)
  unfolding auto_backup
  auto_backup-IsSettled f none d a k =
      swap-IsSettled f d [] (untouched_yet a) (append-nil before.backups ∙ rw k refl)
  auto_backup-IsSettled f (some old) d a k =
      step_lem (IsSettled f) file_error _ d
        (λ bad.
          stopped f file_error (spent d) [] (untouched_yet (spent-IsAt _ d a)) (not_clean a bad))
        (copy_live-IsSettled f old (spent d) (spent-IsAt _ d a) k)

  install-IsSettled :
      (f : F) (d : Disk F)
      → IsAt before.backups d
      → validate_restored files current f ≡ none
      → IsSettled f (install files current f d)
  unfolding install
  install-IsSettled f d a h = rw h (
      step_lem (IsSettled f) file_error _ d
        (λ bad.
          stopped f file_error (spent d) [] (untouched_yet (spent-IsAt _ d a)) (not_clean a bad))
        (auto_backup-IsSettled f d.live (spent d) (spent-IsAt _ d a) (sym a.live)))

  -- What `extract` comes to: a file that was admitted, or an error before the database is touched.
  unfoldable pub Extracts : ZipEntry F → RestoreResult F → Type 0
  Extracts x o =
      ((f : F) × IsHealthy files current x f × IsSettled f o)
      ⊎ (IsUntouched o × (before.faults ≡ [] → (f : F) → ¬ IsHealthy files current x f))

  early :
      (x : ZipEntry F) (e : BackupError) (d : Disk F)
      → IsAt before.backups d
      → (before.faults ≡ [] → (f : F) → ¬ IsHealthy files current x f)
      → Extracts x (d, some e)
  unfolding Extracts
  early x e d a bad =
      inr (
        record { live = a.live; failed = λ h. cc; more = []; copies = (untouched_yet a).same },
        bad,
      )

  install-refused :
      (f : F) (e : BackupError) (d : Disk F)
      → validate_restored files current f ≡ some e
      → install files current f d ≡ (d, some e)
  unfolding install
  install-refused f e d h = rw h refl

  settled :
      (x : ZipEntry F) (f : F) (o : RestoreResult F)
      → IsHealthy files current x f
      → IsSettled f o
      → Extracts x o
  unfolding Extracts
  settled x f o h s = inl (f, h, s)

  -- A fault that comes before the database is touched.
  interrupted :
      (x : ZipEntry F) (d : Disk F)
      → IsAt before.backups d
      → next_fault d.faults ≡ true
      → Extracts x (spent d, some file_error)
  interrupted x d a bad =
      early x file_error (spent d) (spent-IsAt _ d a) (λ c. absurd (not_clean a bad c))

  install-Extracts :
      (x : ZipEntry F) (f : F) (d : Disk F)
      → IsAt before.backups d
      → extracted files current x ≡ inr f
      → Extracts x (install files current f d)
  install-Extracts x f d a h = elim (Option-cases (validate_restored files current f)) [
    | inl fine ↦
        settled x f _ (taken-IsHealthy files current x f h fine) (install-IsSettled f d a fine)
    | inr (e, bad) ↦ subst (Extracts x) (sym (install-refused f e d bad)) (
        early x e d a (λ c g k.
          let (taken, healthy) = IsHealthy-taken files current x g k in
          let same : f ≡ g = inr_inj _ h taken in let l = rw (sym same) at healthy in cc))
  ]

  write_entry-Extracts :
      (x : ZipEntry F) (e : BackupError ⊎ F) (d : Disk F)
      → IsAt before.backups d
      → extracted files current x ≡ e
      → Extracts x (write_entry files current e d)
  write_entry-Extracts x (inl e) d a h =
      early x e d a (λ c f k. let l = (IsHealthy-taken files current x f k).0 in absurd cc)
  write_entry-Extracts x (inr f) d a h =
      step_lem (Extracts x) file_error _ d (interrupted x d a)
        (install-Extracts x f (spent d) (spent-IsAt _ d a) h)

  pub extract-Extracts :
      (x : ZipEntry F) (d : Disk F) → IsAt before.backups d → Extracts x (extract files current x d)
  unfolding extract
  extract-Extracts x d a =
      let a' = spent-IsAt _ d a in
      step_lem (Extracts x) file_error _ d (interrupted x d a) (
        step_lem (Extracts x) file_error _ (spent d) (interrupted x (spent d) a')
          (write_entry-Extracts x _ (spent (spent d)) (spent-IsAt _ (spent d) a') refl))
