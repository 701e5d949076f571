-- ===== src/Engine/Monitor/Requeued.antt =====
-- The abort of a slow torrent as a whole (backend/internal/engine/monitor.go).
use auto_seed_relay.Prelude.{
  ℕ, ◌+◌, ◌≡◌, refl, ap, ◌∙◌, Bool, true, false, List, [], ◌∷◌, ◌++◌, some, arith, ◌==◌, any, keep,
  All, All-map, Bool-cases, inl, inr, some_inj,
}
use auto_seed_relay.Store.Rows.{Db, Seed, RelayRecord, spend, find, update_where, mem_str}
use auto_seed_relay.Store.Seeds.{
  get_seed_by_id, bump_retry, update_seed, update_seed_status, validate_seed_status,
}
use auto_seed_relay.Store.Records.{has_key, list_records_by_seed}
use auto_seed_relay.Store.Unique.{IsUnique}
use auto_seed_relay.Store.Updates.{same_key}
use auto_seed_relay.Pipeline.Frame.{row_of}
use auto_seed_relay.Pipeline.Clean.{IsClean, spend-IsClean, exec_clean, query_clean}
use auto_seed_relay.Engine.Retry.Queue.{enqueue}
use auto_seed_relay.Engine.Submit.Job.{Engine, warning}
use auto_seed_relay.Engine.Monitor.Retire.{with_engine_db}
use auto_seed_relay.Engine.Lifecycle.Resent.{seed_row, hit_found}
use auto_seed_relay.Engine.Monitor.Abort.{
  fail_records_of, requeue_slow, after_list_records, abort_slow_torrent,
}
use auto_seed_relay.Engine.Monitor.Aborted.{
  aborted_row, mine, fail_records_of-row, fail_records_of-Keeps,
}

abbrev of_seed : ℕ → RelayRecord → Bool
of_seed seed r = r.seed_id == seed

abbrev same_target : RelayRecord → RelayRecord → Bool
same_target a b = a.target_id == b.target_id

heads_differ :
    (seed : ℕ) (x : RelayRecord) (rows : List RelayRecord)
    → of_seed seed x ≡ true
    → All (λ y. same_key x y ≡ false) rows
    → All (λ y. same_target x y ≡ false) (keep (of_seed seed) rows)
heads_differ seed x [] h a = tt
heads_differ seed x (y ∷ rows) h a = elim (Bool-cases (of_seed seed y)) [
  | inr other ↦ rw other (heads_differ seed x rows h a.1)
  | inl own ↦ rw own (let k = a.0 in ground arith, heads_differ seed x rows h a.1)
]

kept-IsUnique :
    (seed : ℕ) (rows : List RelayRecord)
    → IsUnique same_key rows
    → IsUnique same_target (keep (of_seed seed) rows)
kept-IsUnique seed [] u = tt
kept-IsUnique seed (x ∷ rows) u = elim (Bool-cases (of_seed seed x)) [
  | inr other ↦ rw other (kept-IsUnique seed rows u.1)
  | inl own ↦ rw own (heads_differ seed x rows own u.0, kept-IsUnique seed rows u.1)
]

-- The rows of a seed, when one of them has the target.
kept_rows :
    (seed t : ℕ) (r : RelayRecord) (rows : List RelayRecord)
    → IsUnique same_key rows
    → find (has_key seed t) rows ≡ some r
    → All (λ q. mine seed t q ≡ true → q ≡ r) (keep (of_seed seed) rows)
      × (any (mine seed t) (keep (of_seed seed) rows) ≡ true)
kept_rows seed t r [] u h = absurd cc
kept_rows seed t r (x ∷ rows) u h = elim (Bool-cases (has_key seed t x)) [
  | inl hit ↦
      let own : of_seed seed x ≡ true = ground arith in
      let aimed : mine seed t x ≡ true = ground arith in
      let same : x ≡ r = some_inj (rw hit at h) in
      rw own (
        (
          (λ m. same),
          All-map _ _ (λ q k m. absurd (let w : same_target x q ≡ true = ground arith in cc))
              (keep (of_seed seed) rows) (heads_differ seed x rows own u.0),
        ),
        rw aimed refl,
      )
  | inr miss ↦
      let (a, b) = kept_rows seed t r rows u.1 (rw miss at h) in
      elim (Bool-cases (of_seed seed x)) [
        | inr other ↦ rw other (a, b)
        | inl own ↦
            let aimed : mine seed t x ≡ false = ground arith in
            rw own (((λ m. absurd (cc)), a), rw aimed b)
      ]
]

-- The row of a seed after the abort.
abbrev pub aborted_seed : ℕ → Seed → Seed
aborted_seed now s = record s {
  retry_count = s.retry_count + 1;
  status = "retry";
  error = "low_speed_abort";
  updated_at = now;
}

abbrev bumped : ℕ → Db → Db
bumped seed db = record (spend db) {
  seeds =
      update_where (λ s. s.id == seed)
        (λ s. record s { retry_count = s.retry_count + 1; updated_at = db.unixepoch }) db.seeds;
}

bump_clean : (seed : ℕ) (db : Db) → IsClean db → (bump_retry seed db).0 ≡ bumped seed db
unfolding bump_retry update_seed
bump_clean seed db h = ap (λ x. x.0) (exec_clean _ db h)

retry_clean :
    (seed : ℕ) (db : Db)
    → IsClean db
    → (update_seed_status seed "retry" "low_speed_abort" db).0 ≡ record (spend db) {
      seeds =
          update_where
            (λ s. s.id == seed)
            (λ s. record s {
              status = "retry";
              error = "low_speed_abort";
              updated_at = db.unixepoch;
            })
            db.seeds;
    }
unfolding update_seed_status update_seed validate_seed_status mem_str
retry_clean seed db h = ap (λ x. x.0) (exec_clean _ db h)

-- The last statements and calls.
Requeues : ℕ → ℕ → ℕ → Seed → Engine → Engine → Type 0
Requeues now seed retry_no s e e' =
    (seed_row seed e'.db ≡ some (aborted_seed e.db.unixepoch s))
    × (e'.db.records ≡ e.db.records)
    × (e'.retry ≡ enqueue now seed retry_no e.retry)
    × (e'.notices ≡ e.notices ++ record { level = warning; event = "low_speed" } ∷ [])

requeue_slow-Requeues :
    (now seed retry_no : ℕ) (s : Seed) (e : Engine)
    → IsClean e.db
    → seed_row seed e.db ≡ some s
    → Requeues now seed retry_no s e (requeue_slow now seed retry_no e)
unfolding requeue_slow Requeues
requeue_slow-Requeues now seed retry_no s e h k =
    rw (bump_clean seed e.db h, retry_clean seed (bumped seed e.db) (spend-IsClean e.db h))
      (
        hit_found seed _ (bumped seed e.db).seeds _ (λ x. refl)
            (hit_found seed _ e.db.seeds s (λ x. refl) k),
        refl,
        refl,
        refl,
      )

module _ (now seed t : ℕ) (r : RelayRecord) (s : Seed) (e : Engine) where
  -- What an abort leaves of a record and of the seed.
  abbrev pub Aborts : Engine → Type 0
  Aborts e' =
      (row_of seed t e'.db ≡ some (aborted_row e.db.unixepoch r))
      × (seed_row seed e'.db ≡ some (aborted_seed e.db.unixepoch s))
      × (e'.retry ≡ enqueue now seed (s.retry_count + 1) e.retry)
      × (e'.notices ≡ e.notices ++ record { level = warning; event = "low_speed" } ∷ [])

  after_list-Aborts :
      (d : Db)
      → IsClean d
      → d.records ≡ e.db.records
      → d.seeds ≡ e.db.seeds
      → d.unixepoch ≡ e.db.unixepoch
      → IsUnique same_key e.db.records
      → row_of seed t e.db ≡ some r
      → seed_row seed e.db ≡ some s
      → Aborts (
          after_list_records now seed
            (some (keep (of_seed seed) e.db.records))
            (with_engine_db d e))
  unfolding Requeues after_list_records get_seed_by_id
  after_list-Aborts d h er es ec u k l =
      let rs = keep (of_seed seed) e.db.records in
      let f = fail_records_of-Keeps seed t rs d h in
      let d1 = fail_records_of seed rs d in
      let (a, b) = kept_rows seed t r e.db.records u k in
      let row =
        fail_records_of-row seed t rs r d h (rw er k) a (kept-IsUnique seed e.db.records u) in
      let found : seed_row seed d1 ≡ some s = rw (f.seeds, es) l in
      let q =
        requeue_slow-Requeues now seed (s.retry_count + 1) s (with_engine_db (spend d1) e)
          (spend-IsClean d1 f.clean) found in
      rw (query_clean _ d1 f.clean, found)
        (
          ap (find (has_key seed t)) q.1 ∙ row ∙ rw (b, ec) refl,
          q.0 ∙ ap (λ n. some (aborted_seed n s)) (f.clock ∙ ec),
          q.2,
          q.3,
        )

  -- When qBittorrent has deleted a slow torrent and no statement fails, with one record for each seed and
  -- target: a record of the seed that is done stays as it is, any other counts one more attempt and is
  -- failed, the seed is in "retry" and its retry count, one higher, is the number of the retry that is
  -- queued, and one warning is sent. If the deletion has failed, nothing changes.
  pub abort_requeues :
      IsClean e.db
      → IsUnique same_key e.db.records
      → row_of seed t e.db ≡ some r
      → seed_row seed e.db ≡ some s
      → Aborts (abort_slow_torrent now true seed e) × (abort_slow_torrent now false seed e ≡ e)
  unfolding abort_slow_torrent list_records_by_seed
  abort_requeues h u k l = (
    rw (query_clean _ e.db h)
        (after_list-Aborts (spend e.db) (spend-IsClean e.db h) refl refl refl u k l),
    refl,
  )
