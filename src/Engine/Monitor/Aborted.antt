-- ===== src/Engine/Monitor/Aborted.antt =====
-- What the abort of a slow torrent leaves (backend/internal/engine/monitor.go).
use auto_seed_relay.Prelude.{
  ℕ, ◌+◌, ◌≡◌, refl, ap, ◌∙◌, sym, subst, Bool, true, false, List, [], ◌∷◌, some, arith,
  if◌then◌else◌, ◌==◌, ==_iff, any, All, All-map, Bool-cases, inl, inr,
}
use auto_seed_relay.Store.Rows.{Db, RelayRecord, spend, update_where, mem_str}
use auto_seed_relay.Store.Seeds.{validate_record_status}
use auto_seed_relay.Store.Records.{has_key, update_record, update_record_attempt}
use auto_seed_relay.Store.Unique.{IsUnique}
use auto_seed_relay.Pipeline.Frame.{row_of, update_record_attempt-row}
use auto_seed_relay.Pipeline.Clean.{IsClean, spend-IsClean, exec_clean}
use auto_seed_relay.Pipeline.Success.{find-holds}
use auto_seed_relay.Store.History.{find-update_where}
use auto_seed_relay.Engine.Monitor.Abort.{is_done_record_status, fail_record_of, fail_records_of}

-- The row after a failed attempt.
abbrev pub failed_row : ℕ → RelayRecord → RelayRecord
failed_row now r = record r {
  attempts = r.attempts + 1;
  status = "failed";
  last_error = "low_speed_abort";
  updated_at = now;
}

abbrev pub aborted_row : ℕ → RelayRecord → RelayRecord
aborted_row now r = if is_done_record_status r.status then r else failed_row now r

attempt_clean :
    (seed t : ℕ) (db : Db)
    → IsClean db
    → (update_record_attempt seed t "failed" "low_speed_abort" db).0 ≡ record (spend db) {
      records = update_where (has_key seed t) (failed_row db.unixepoch) db.records;
    }
unfolding update_record_attempt update_record validate_record_status mem_str
attempt_clean seed t db h = ap (λ x. x.0) (exec_clean _ db h)

module _ (seed t : ℕ) where
  abbrev pub mine : RelayRecord → Bool
  mine q = q.target_id == t

  -- What one step of the loop keeps.
  pub record Keeps (db db' : Db) : Type 0 where
    pub clean : IsClean db'
    pub seeds : db'.seeds ≡ db.seeds
    pub clock : db'.unixepoch ≡ db.unixepoch

  fail_record_of-Keeps :
      (q : RelayRecord) (db : Db) → IsClean db → Keeps db (fail_record_of seed q db)
  unfolding fail_record_of
  fail_record_of-Keeps q db h = elim (Bool-cases (is_done_record_status q.status)) [
    | inl done ↦ rw done (record { clean = h; seeds = refl; clock = refl })
    | inr open_one ↦
        rw (open_one, attempt_clean seed q.target_id db h)
          (record { clean = spend-IsClean db h; seeds = refl; clock = refl })
  ]

  attempt_hit :
      (r : RelayRecord) (db : Db)
      → IsClean db
      → row_of seed t db ≡ some r
      → row_of seed t (update_record_attempt seed t "failed" "low_speed_abort" db).0
        ≡ some (failed_row db.unixepoch r)
  attempt_hit r db h e = rw (attempt_clean seed t db h) (
      find-update_where (has_key seed t) (has_key seed t) (failed_row db.unixepoch) db.records
        (λ y. refl) e
      ∙ rw (find-holds (has_key seed t) db.records e) refl)

  fail_record_of-row :
      (q r : RelayRecord) (db : Db)
      → IsClean db
      → row_of seed t db ≡ some r
      → (mine q ≡ true → q ≡ r)
      → row_of seed t (fail_record_of seed q db)
        ≡ some (if mine q then aborted_row db.unixepoch r else r)
  unfolding fail_record_of
  fail_record_of-row q r db h e k = elim (Bool-cases (mine q)) [
    | inl own ↦ elim (Bool-cases (is_done_record_status r.status)) [
      | inl done ↦ rw (own, k own, done) e
      | inr running ↦
          let target : r.target_id ≡ t =
            ap (λ x. x.target_id) (sym (k own)) ∙ (==_iff q.target_id t).0 own in
          rw (own, k own, running)
            (subst
              (λ x.
                row_of seed t (update_record_attempt seed x "failed" "low_speed_abort" db).0
                ≡ some (failed_row db.unixepoch r))
              (sym target) (attempt_hit r db h e))
    ]
    | inr other ↦ elim (Bool-cases (is_done_record_status q.status)) [
      | inl done ↦ rw (other, done) e
      | inr running ↦
          rw (other, running)
            (update_record_attempt-row seed t q.target_id "failed" "low_speed_abort" db
                (λ m. absurd (let w = (==_iff q.target_id t).1 (sym m) in cc))
              ∙ e)
    ]
  ]

  no_more :
      (q : RelayRecord) (rs : List RelayRecord)
      → mine q ≡ true
      → All (λ b. (q.target_id == b.target_id) ≡ false) rs
      → All (λ b. mine b ≡ false) rs
  no_more q rs h a = All-map _ _ (λ b k. ground arith) rs a

  every_false : (rs : List RelayRecord) → All (λ b. mine b ≡ false) rs → any mine rs ≡ false
  every_false [] h = refl
  every_false (b ∷ rs) h = rw h.0 (every_false rs h.1)

  -- The loop, over rows of which at most one has the target.
  pub fail_records_of-row :
      (rs : List RelayRecord) (r : RelayRecord) (db : Db)
      → IsClean db
      → row_of seed t db ≡ some r
      → All (λ q. mine q ≡ true → q ≡ r) rs
      → IsUnique (λ a b. a.target_id == b.target_id) rs
      → row_of seed t (fail_records_of seed rs db)
        ≡ some (if any mine rs then aborted_row db.unixepoch r else r)
  unfolding fail_records_of
  fail_records_of-row [] r db h e a u = e
  fail_records_of-row (q ∷ rs) r db h e a u =
      let step = fail_record_of-row q r db h e a.0 in
      let kept = fail_record_of-Keeps q db h in
      let d = fail_record_of seed q db in
      elim (Bool-cases (mine q)) [
        | inl own ↦
            let none_later = no_more q rs own u.0 in
            rw own (
              fail_records_of-row rs (aborted_row db.unixepoch r) d kept.clean (rw own at step)
                (All-map _ _ (λ x m n. absurd (cc)) rs none_later) u.1
              ∙ rw (every_false rs none_later) refl)
        | inr other ↦ rw other (
            fail_records_of-row rs r d kept.clean (rw other at step) a.1 u.1
            ∙ ap (λ now. some (if any mine rs then aborted_row now r else r)) kept.clock)
      ]

  pub fail_records_of-Keeps :
      (rs : List RelayRecord) (db : Db) → IsClean db → Keeps db (fail_records_of seed rs db)
  unfolding fail_records_of
  fail_records_of-Keeps [] db h = record { clean = h; seeds = refl; clock = refl }
  fail_records_of-Keeps (q ∷ rs) db h =
      let k = fail_record_of-Keeps q db h in
      let m = fail_records_of-Keeps rs (fail_record_of seed q db) k.clean in
      record { clean = m.clean; seeds = m.seeds ∙ k.seeds; clock = m.clock ∙ k.clock }
