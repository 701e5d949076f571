-- ===== src/Pipeline/Outcome.antt =====
-- What the result of `Relay` says of its targets (backend/internal/pipeline/pipeline.go).
use auto_seed_relay.Prelude.{
  ℕ, suc, ◌<◌, ◌≡◌, ◌≢◌, refl, sym, ap, subst, Bool, true, false, List, [], ◌∷◌, Option, none, some,
  String, arith, ◌==◌, ltb, length, keep, not, All, All-map, Bool-cases, Option-cases, inl, inr,
}
use auto_seed_relay.Store.Rows.{Db, RelayRecord, query, find}
use auto_seed_relay.Store.Records.{has_key, list_records_by_seed}
use auto_seed_relay.Store.Unique.{IsUnique}
use auto_seed_relay.Store.Updates.{same_key}
use auto_seed_relay.Engine.Submit.Job.{relayed, failed}
use auto_seed_relay.Pipeline.Publish.{
  RelayOne, Target, Job, is_done, with_db, publish_to_one_target,
}
use auto_seed_relay.Pipeline.Clean.{IsClean, publish-IsClean, query-IsClean}
use auto_seed_relay.Pipeline.Relay.{
  set_seed, has_done, not_done, pending_targets, publish_to_targets, failures, summarise,
  publish_all, publish_pending,
}
use auto_seed_relay.Pipeline.Done.{
  IsDone, IsDone-Leaves, publish_to_targets-Leaves, set_seed-Leaves, publish_pending-Leaves,
}
use auto_seed_relay.Pipeline.Success.{publish-IsDone}

no_hit :
    (q : RelayRecord → Bool) (rows : List RelayRecord)
    → All (λ r. q r ≡ false) rows
    → find q rows ≡ none
no_hit q [] a = refl
no_hit q (r ∷ rows) a = rw a.0 (no_hit q rows a.1)

length_zero : (xs : List (ℕ × String)) → (length xs == 0) ≡ true → xs ≡ []
length_zero [] h = refl
length_zero (x ∷ xs) h = ground arith

abbrev DoneRow : ℕ → ℕ → List RelayRecord → Type 0
DoneRow s t rows =
    (r : RelayRecord) × (find (has_key s t) rows ≡ some r) × (is_done r.status ≡ true)

-- No other record has the key of the first.
key_free :
    (s t : ℕ) (r : RelayRecord) (rows : List RelayRecord)
    → (r.seed_id == s) ≡ true
    → (r.target_id == t) ≡ true
    → All (λ q. same_key r q ≡ false) rows
    → find (has_key s t) rows ≡ none
key_free s t r rows h k a = no_hit (has_key s t) rows (All-map _ _ (λ q n. ground arith) rows a)

-- With one record for each key, a target among the records of a seed that are done has its record done.
has_done-DoneRow :
    (s t : ℕ) (rows : List RelayRecord)
    → IsUnique same_key rows
    → has_done t (keep (λ r. r.seed_id == s) rows) ≡ true
    → DoneRow s t rows
unfolding has_done
has_done-DoneRow s t [] u h = cc
has_done-DoneRow s t (r ∷ rows) u h = elim (Bool-cases (r.seed_id == s)) [
  | inr other ↦ let (q, e, d) = has_done-DoneRow s t rows u.1 (rw other at h) in (q, rw other e, d)
  | inl mine ↦ elim (Bool-cases (r.target_id == t)) [
    | inr elsewhere ↦
        let (q, e, d) = has_done-DoneRow s t rows u.1 (rw (mine, elsewhere) at h) in
        (q, rw (mine, elsewhere) e, d)
    | inl here ↦ elim (Bool-cases (is_done r.status)) [
      | inl done ↦ (r, rw (mine, here) refl, done)
      | inr live ↦
          let (q, e, d) = has_done-DoneRow s t rows u.1 (rw (mine, here, live) at h) in
          let free = key_free s t r rows mine here u.0 in cc
    ]
  ]
]

module _ (p : RelayOne) (s : ℕ) where
  results-IsDone :
      (sites : List Target) (j : Job)
      → IsClean j.db
      → failures (publish_to_targets p s sites j).1 ≡ []
      → All (λ site. IsDone s site.id (publish_to_targets p s sites j).0) sites
  unfolding publish_to_targets failures
  results-IsDone [] j h n = tt
  results-IsDone (site ∷ sites) j h n = elim (Option-cases (publish_to_one_target p s site j).1) [
    | inr (e, failed') ↦ let m = rw failed' at n in cc
    | inl fine ↦
        let next = (publish_to_one_target p s site j).0 in
        let done = publish-IsDone p s site j h fine in
        (
          IsDone-Leaves s site.id next _ (publish_to_targets-Leaves p s site.id sites next done)
              done,
          results-IsDone sites next (publish-IsClean p s site j h) (rw fine at n),
        )
  ]

  summarise_relayed :
      (results : List (ℕ × Option String)) (j : Job)
      → (summarise s results j).1 ≡ relayed
      → (failures results ≡ []) × ((summarise s results j).0 ≡ set_seed s "seeding" "" j)
  unfolding summarise
  summarise_relayed results j h = elim (Bool-cases (length (failures results) == 0)) [
    | inl all ↦ (length_zero (failures results) all, rw all refl)
    | inr some_fail ↦ elim (Bool-cases (ltb (length (failures results)) (length results))) [
      | inl part ↦ let m = rw (some_fail, part) at h in cc
      | inr whole ↦ let m = rw (some_fail, whole) at h in cc
    ]
  ]

  seeding-IsDone : (t : ℕ) (j : Job) → IsDone s t j → IsDone s t (set_seed s "seeding" "" j)
  seeding-IsDone t j d =
      IsDone-Leaves s t j (set_seed s "seeding" "" j)
        (set_seed-Leaves p s t j j "seeding" "" (record { row = refl; quiet = refl })) d

  publish_all_relayed :
      (sites : List Target) (j : Job)
      → IsClean j.db
      → (publish_all p s sites j).1 ≡ relayed
      → All (λ site. IsDone s site.id (publish_all p s sites j).0) sites
  unfolding publish_all
  publish_all_relayed [] j h n = tt
  publish_all_relayed (site ∷ sites) j h n =
      let out = publish_to_targets p s (site ∷ sites) j in
      let (none_fail, e) = summarise_relayed out.1 out.0 n in
      subst (λ k. All (λ x. IsDone s x.id k) (site ∷ sites)) (sym e)
        (All-map (λ x. IsDone s x.id out.0) (λ x. IsDone s x.id (set_seed s "seeding" "" out.0))
          (λ x d. seeding-IsDone x.id out.0 d) (site ∷ sites)
          (results-IsDone (site ∷ sites) j h none_fail))

  All-of-keep :
      (P : Target → Type 0) (q : Target → Bool) (sites : List Target)
      → ((x : Target) → q x ≡ false → P x)
      → All P (keep q sites)
      → All P sites
  All-of-keep P q [] k a = tt
  All-of-keep P q (x ∷ sites) k a = elim (Bool-cases (q x)) [
    | inl kept ↦ let a' = rw kept at a in (a'.0, All-of-keep P q sites k a'.1)
    | inr left ↦ (k x left, All-of-keep P q sites k (rw left at a))
  ]

  listed_clean :
      (db : Db)
      → IsClean db
      → (list_records_by_seed s db).1 ≡ some (keep (λ r. r.seed_id == s) db.records)
  unfolding list_records_by_seed query
  listed_clean db h = rw h refl

  seed_rows : Job → List RelayRecord
  seed_rows j = keep (λ r. r.seed_id == s) j.db.records

  pending_of : List Target → Job → List Target
  pending_of sites j = keep (λ x. not (has_done x.id (seed_rows j))) sites

  publish_pending_clean :
      (sites : List Target) (j : Job)
      → IsClean j.db
      → publish_pending p s sites j
        ≡ publish_all p s (pending_of sites j) (with_db (list_records_by_seed s j.db).0 j)
  unfolding publish_pending pending_targets not_done pending_of seed_rows
  publish_pending_clean sites j h = rw (listed_clean j.db h) refl

  list_records-IsClean : (db : Db) → IsClean db → IsClean (list_records_by_seed s db).0
  unfolding list_records_by_seed
  list_records-IsClean db h = query-IsClean _ db h

  skipped-IsDone :
      (sites : List Target) (j : Job) (x : Target)
      → IsUnique same_key j.db.records
      → not (has_done x.id (seed_rows j)) ≡ false
      → IsDone s x.id (publish_pending p s sites j).0
  unfolding seed_rows
  skipped-IsDone sites j x u n =
      let d = has_done-DoneRow s x.id j.db.records u (ground arith) in
      IsDone-Leaves s x.id j (publish_pending p s sites j).0
        (publish_pending-Leaves p s x.id sites j j d (record { row = refl; quiet = refl })) d

  -- When no statement fails and the run from the list of targets on returns nil, every enabled target is
  -- done, those that the run skipped and those that it published to. There is one record for each key.
  pub relayed-IsDone :
      (sites : List Target) (j : Job)
      → j.db.faults ≡ []
      → IsUnique same_key j.db.records
      → (publish_pending p s sites j).1 ≡ relayed
      → All (λ site. IsDone s site.id (publish_pending p s sites j).0) sites
  unfolding pending_of
  relayed-IsDone sites j h u n =
      let e = publish_pending_clean sites j h in
      All-of-keep (λ x. IsDone s x.id (publish_pending p s sites j).0)
        (λ x. not (has_done x.id (seed_rows j))) sites (λ x left. skipped-IsDone sites j x u left)
        (subst (λ run. All (λ x. IsDone s x.id run.0) (pending_of sites j)) (sym e)
          (publish_all_relayed (pending_of sites j) (with_db (list_records_by_seed s j.db).0 j)
            (list_records-IsClean j.db h) (subst (λ run. run.1 ≡ relayed) e n)))

  every_fails :
      (results : List (ℕ × Option String))
      → All (λ r. r.1 ≢ none) results
      → length (failures results) ≡ length results
  unfolding failures
  every_fails [] a = refl
  every_fails ((t, none) ∷ results) a = absurd (a.0 refl)
  every_fails ((t, some e) ∷ results) a = ap suc (every_fails results a.1)

  summarise_total :
      (results : List (ℕ × Option String)) (j : Job)
      → 0 < length results
      → All (λ r. r.1 ≢ none) results
      → (summarise s results j).1 ≡ failed false "relay failed for all targets"
  unfolding summarise
  summarise_total results j l a = let e = every_fails results a in ground arith

  publish_all_total :
      (pending : List Target) (j : Job)
      → 0 < length pending
      → All (λ r. r.1 ≢ none) (publish_to_targets p s pending j).1
      → (publish_all p s pending j).1 ≡ failed false "relay failed for all targets"
  unfolding publish_all publish_to_targets
  publish_all_total [] j l a = ground arith
  publish_all_total (t ∷ ts) j l a =
      summarise_total (publish_to_targets p s (t ∷ ts) j).1 _ (omega arith) a

  -- When some target is done and every target that is still pending fails, which is what a retry of a
  -- partial failure meets, the run returns a total failure and not a partial one, although the first
  -- target is still done.
  pub retry_is_total :
      (t : ℕ) (sites : List Target) (j : Job)
      → IsDone s t j
      → let pending = pending_targets s sites j.db in
        0 < length pending.1
        → All (λ r. r.1 ≢ none) (publish_to_targets p s pending.1 (with_db pending.0 j)).1
        → ((publish_pending p s sites j).1 ≡ failed false "relay failed for all targets")
          × IsDone s t (publish_pending p s sites j).0
  unfolding publish_pending
  retry_is_total t sites j d l a =
      let pending = pending_targets s sites j.db in
      (
        publish_all_total pending.1 (with_db pending.0 j) l a,
        IsDone-Leaves s t j (publish_pending p s sites j).0
            (publish_pending-Leaves p s t sites j j d (record { row = refl; quiet = refl })) d,
      )
