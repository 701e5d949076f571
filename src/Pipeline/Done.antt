-- ===== src/Pipeline/Done.antt =====
-- Runs of `Relay` on a seed one of whose targets is done (backend/internal/pipeline).
use text.Mathlib.Text.{◌==◌ as str_eq}
use auto_seed_relay.Prelude.{
  ℕ, ◌≡◌, refl, subst, ◌∙◌, Bool, true, false, List, [], ◌∷◌, Option, none, some, String, arith,
  if◌then◌else◌, ◌==◌, ◌⊎◌, ltb, length, Bool-cases, inl, inr,
}
use auto_seed_relay.Store.Rows.{Db, Seed, RelayRecord, query, next_fault}
use auto_seed_relay.Store.Seeds.{
  get_seed_by_id, update_seed, update_seed_status, update_seed_promotion, validate_seed_status,
}
use auto_seed_relay.Store.Records.{get_record, list_records_by_seed}
use auto_seed_relay.Pipeline.Publish.{
  RelayOne, Target, Job, is_done, with_db, after_read, after_prepare, publish_to_one_target,
}
use auto_seed_relay.Pipeline.Frame.{
  row_of, Leaves, Leaves-trans, exec-row, if-row, query-row, get_record-row, append_log-row,
}
use auto_seed_relay.Pipeline.Once.{publish-Leaves}
use auto_seed_relay.Pipeline.Relay.{
  Inputs, Run, set_seed, publish_to_targets, failures, summarise, pending_targets, publish_all,
  publish_pending, after_targets, after_download, after_filter, after_detail, after_load, relay,
}

abbrev pub IsDone : ℕ → ℕ → Job → Type 0
IsDone s t j = (r : RelayRecord) × (row_of s t j.db ≡ some r) × (is_done r.status ≡ true)

pub IsDone-Leaves : (s t : ℕ) (i j : Job) → Leaves s t i j → IsDone s t i → IsDone s t j
IsDone-Leaves s t i j h d = (d.0, h.row ∙ d.1, d.2)

-- `GetRecord` either fails or finds the row.
get_record-cases :
    (s t : ℕ) (db : Db)
    → ((get_record s t db).1 ≡ none) ⊎ ((get_record s t db).1 ≡ some (row_of s t db))
unfolding get_record query
get_record-cases s t db = elim (Bool-cases (next_fault db.faults)) [
  | inl fault ↦ inl (rw fault refl)
  | inr fine ↦ inr (rw fine refl)
]

after_read_done :
    (p : RelayOne) (s : ℕ) (site : Target) (j : Job) (r : RelayRecord)
    → is_done r.status ≡ true
    → after_read p s site (some (some r)) j ≡ (j, none)
unfolding after_read
after_read_done p s site j r d = rw d refl

after_prepare_done :
    (p : RelayOne) (s : ℕ) (site : Target) (o : Option String) (j : Job)
    → IsDone s site.id j
    → Leaves s site.id j (after_prepare p s site o j).0
unfolding after_prepare
after_prepare_done p s site (some e) j d = record { row = refl; quiet = refl }
after_prepare_done p s site none j d = elim (get_record-cases s site.id j.db) [
  | inl fault ↦
      rw fault (
        unfold after_read in record { row = get_record-row s site.id s site.id j.db; quiet = refl })
  | inr fine ↦
      rw (fine, d.1, after_read_done p s site _ d.0 d.2)
        (record { row = get_record-row s site.id s site.id j.db; quiet = refl })
]

publish_done :
    (p : RelayOne) (s : ℕ) (site : Target) (j : Job)
    → IsDone s site.id j
    → Leaves s site.id j (publish_to_one_target p s site j).0
unfolding publish_to_one_target
publish_done p s site j d = after_prepare_done p s site site.prepared j d

module _ (p : RelayOne) (s t : ℕ) where
  publish_any :
      (site : Target) (j : Job) → IsDone s t j → Leaves s t j (publish_to_one_target p s site j).0
  publish_any site j d = elim (Bool-cases (t == site.id)) [
    | inl eq ↦
        subst (λ x. IsDone s x j → Leaves s x j (publish_to_one_target p s site j).0) {x = site.id}
          {y = t} (ground arith) (publish_done p s site j) d
    | inr ne ↦ publish-Leaves p s t site (ground arith) j
  ]

  pub publish_to_targets-Leaves :
      (sites : List Target) (j : Job)
      → IsDone s t j
      → Leaves s t j (publish_to_targets p s sites j).0
  unfolding publish_to_targets
  publish_to_targets-Leaves [] j d = record { row = refl; quiet = refl }
  publish_to_targets-Leaves (site ∷ sites) j d =
      let first = publish_any site j d in
      let next = (publish_to_one_target p s site j).0 in
      Leaves-trans s t j next (publish_to_targets p s sites next).0 first
        (publish_to_targets-Leaves sites next (IsDone-Leaves s t j next first d))

  if-Leaves :
      (i : Job) (c : Bool) (x y : Run)
      → Leaves s t i x.0
      → Leaves s t i y.0
      → Leaves s t i (if c then x else y).0
  if-Leaves i true x y h k = h
  if-Leaves i false x y h k = k

  if-one-Leaves :
      (i : Job) (c : Bool) (x y : Job)
      → Leaves s t i x
      → Leaves s t i y
      → Leaves s t i (if c then x else y)
  if-one-Leaves i true x y h k = h
  if-one-Leaves i false x y h k = k

  pub set_seed-Leaves :
      (i j : Job) (status error : String)
      → Leaves s t i j
      → Leaves s t i (set_seed s status error j)
  unfolding update_seed_status update_seed
  set_seed-Leaves i j status error h = record {
    row =
        if-row s t (validate_seed_status status) _ (j.db, false) j.db
          (exec-row s t _ j.db (λ d. refl)) refl
        ∙ h.row;
    quiet = h.quiet;
  }

  summarise-Leaves :
      (results : List (ℕ × Option String)) (i j : Job)
      → Leaves s t i j
      → Leaves s t i (summarise s results j).0
  unfolding summarise
  summarise-Leaves results i j h = elim (Bool-cases (length (failures results) == 0)) [
    | inl all ↦ rw all (set_seed-Leaves i j "seeding" "" h)
    | inr some_fail ↦
        rw some_fail (if-Leaves i (ltb (length (failures results)) (length results)) _ _ h h)
  ]

  publish_all-Leaves :
      (sites : List Target) (i j : Job)
      → IsDone s t i
      → Leaves s t i j
      → Leaves s t i (publish_all p s sites j).0
  unfolding publish_all
  publish_all-Leaves [] i j d h = set_seed-Leaves i j "seeding" "" h
  publish_all-Leaves (site ∷ sites) i j d h =
      let out = publish_to_targets p s (site ∷ sites) j in
      summarise-Leaves out.1 i out.0 (
        Leaves-trans s t i j out.0 h
          (publish_to_targets-Leaves (site ∷ sites) j (IsDone-Leaves s t i j h d)))

  pub publish_pending-Leaves :
      (sites : List Target) (i j : Job)
      → IsDone s t i
      → Leaves s t i j
      → Leaves s t i (publish_pending p s sites j).0
  unfolding publish_pending pending_targets list_records_by_seed
  publish_pending-Leaves sites i j d h =
      publish_all-Leaves _ i _ d (record { row = query-row s t _ j.db ∙ h.row; quiet = h.quiet })

  after_targets-Leaves :
      (o : Option (List Target)) (i j : Job)
      → IsDone s t i
      → Leaves s t i j
      → Leaves s t i (after_targets p s o j).0
  unfolding after_targets
  after_targets-Leaves none i j d h = h
  after_targets-Leaves (some []) i j d h = h
  after_targets-Leaves (some (site ∷ sites)) i j d h = publish_pending-Leaves (site ∷ sites) i j d h

  after_download-Leaves :
      (inputs : Inputs) (o : Option String) (i j : Job)
      → IsDone s t i
      → Leaves s t i j
      → Leaves s t i (after_download p inputs s o j).0
  unfolding after_download
  after_download-Leaves inputs (some e) i j d h = h
  after_download-Leaves inputs none i j d h =
      after_targets-Leaves inputs.targets i _ d (set_seed-Leaves i j "downloaded" "" h)

  after_filter-Leaves :
      (inputs : Inputs) (b : Bool) (i j : Job)
      → IsDone s t i
      → Leaves s t i j
      → Leaves s t i (after_filter p inputs s b j).0
  unfolding after_filter
  after_filter-Leaves inputs false i j d h =
      let skipped = set_seed-Leaves i j "skipped" "promotion" h in
      record {
        row = append_log-row s t s "info" "promotion_filter" _ ∙ skipped.row;
        quiet = skipped.quiet;
      }
  after_filter-Leaves inputs true i j d h =
      after_download-Leaves inputs inputs.download i _ d (set_seed-Leaves i j "downloading" "" h)

  promote-Leaves :
      (promotion : String) (i j : Job)
      → Leaves s t i j
      → Leaves s t i (with_db (update_seed_promotion s promotion j.db).0 j)
  unfolding update_seed_promotion update_seed
  promote-Leaves promotion i j h = record {
    row = exec-row s t _ j.db (λ d. refl) ∙ h.row;
    quiet = h.quiet;
  }

  after_detail-Leaves :
      (inputs : Inputs) (o : Option String) (i j : Job)
      → IsDone s t i
      → Leaves s t i j
      → Leaves s t i (after_detail p inputs s o j).0
  unfolding after_detail
  after_detail-Leaves inputs none i j d h = h
  after_detail-Leaves inputs (some promotion) i j d h =
      after_filter-Leaves inputs _ i _ d
        (if-one-Leaves i (str_eq promotion "") j _ h (promote-Leaves promotion i j h))

  after_load-Leaves :
      (inputs : Inputs) (o : Option (Option Seed)) (i j : Job)
      → IsDone s t i
      → Leaves s t i j
      → Leaves s t i (after_load p inputs s o j).0
  unfolding after_load
  after_load-Leaves inputs none i j d h = h
  after_load-Leaves inputs (some none) i j d h = h
  after_load-Leaves inputs (some (some seed)) i j d h =
      let started = set_seed-Leaves i j "processing" "" h in
      if-Leaves i inputs.active _ _
        (if-Leaves i inputs.located _ _
          (if-Leaves i inputs.has_torrent_id _ _
            (after_detail-Leaves inputs inputs.promotion i _ d started) started)
          started)
        started

  -- A run of `Relay`, whatever it meets and whichever of its statements fail, leaves the record of a
  -- target that is done and does not ask its site.
  pub relay-Leaves :
      (inputs : Inputs) (j : Job) → IsDone s t j → Leaves s t j (relay p inputs s j).0
  unfolding relay get_seed_by_id
  relay-Leaves inputs j d =
      after_load-Leaves inputs _ j _ d (record { row = query-row s t _ j.db; quiet = refl })
