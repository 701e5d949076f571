-- ===== src/Engine/Lifecycle/Cleared.antt =====
-- What a full rerun clears (backend/internal/engine/engine.go).
use auto_seed_relay.Prelude.{
  ℕ, ◌≡◌, ◌≢◌, refl, ap, ◌∙◌, subst, sym, true, List, [], ◌∷◌, Option, none, some, arith, ◌==◌,
  keep, not, Bool-cases, inl, inr,
}
use auto_seed_relay.Store.Rows.{Db, RelayRecord, Replica, exec, query, next_fault, spend, find}
use auto_seed_relay.Store.Records.{has_key}
use auto_seed_relay.Store.Replicas.{list_replicas, delete_replica}
use auto_seed_relay.Engine.Monitor.Dropped.{Owned, Owned-self, Owned-step, Owned-none}
use auto_seed_relay.Engine.Lifecycle.Resend.{
  delete_records_of, delete_each, delete_listed, after_delete_records, clear_seed,
}

pub exec_ok : (f : Db → Db) (db : Db) → (exec f db).1 ≡ true → (exec f db).0 ≡ f (spend db)
unfolding exec
exec_ok f db h = ground arith

pub query_ok {ℓ} :
    {A : Type ℓ} (f : Db → A) (db : Db) (a : A)
    → (query f db).1 ≡ some a
    → (a ≡ f db) × ((query f db).0 ≡ spend db)
unfolding query
query_ok f db a h = elim (Bool-cases (next_fault db.faults)) [
  | inl fault ↦ absurd (let k = rw fault at h in cc)
  | inr fine ↦ (ap (λ o. elim o [ none ↦ a | some x ↦ x ]) (sym (rw fine at h)), rw fine refl)
]

pub query_fault {ℓ} :
    {A : Type ℓ} (f : Db → A) (db : Db)
    → (query f db).1 ≡ none
    → ((query f db).0 ≡ spend db) × (db.faults ≢ [])
unfolding query
query_fault f db h = elim (Bool-cases (next_fault db.faults)) [
  | inl fault ↦ (rw fault refl, λ e. absurd (let k = rw e at fault in cc))
  | inr fine ↦ absurd (let k = rw fine at h in cc)
]

module _ (seed : ℕ) where
  abbrev pub records_of : Db → List RelayRecord
  records_of db = keep (λ r. r.seed_id == seed) db.records

  abbrev pub replicas_of : Db → List Replica
  replicas_of db = keep (λ r. r.seed_id == seed) db.replicas

  delete_each-none :
      (rs : List Replica) (db : Db)
      → (delete_each rs db).1 ≡ true
      → Owned seed rs db.replicas
      → (replicas_of (delete_each rs db).0 ≡ [])
        × ((delete_each rs db).0.records ≡ db.records)
        × ((delete_each rs db).0.seeds ≡ db.seeds)
  unfolding delete_each delete_replica
  delete_each-none [] db h o = (Owned-none seed db.replicas o, refl, refl)
  delete_each-none (q ∷ rs) db h o = elim (Bool-cases (delete_replica q.id db).1) [
    | inr failed ↦ absurd (let k = rw failed at h in cc)
    | inl fine ↦
        let d = (delete_replica q.id db).0 in
        let e = exec_ok _ db fine in
        let (a, b, c) =
          delete_each-none rs d (rw fine at h)
            (subst (λ x. Owned seed rs x.replicas) (sym e) (Owned-step seed q rs db.replicas o)) in
        rw fine (a, b ∙ ap (λ x. x.records) e, c ∙ ap (λ x. x.seeds) e)
  ]

  not_kept_key :
      (s t : ℕ) (rows : List RelayRecord)
      → s ≢ seed
      → find (has_key s t) (keep (λ r. not (r.seed_id == seed)) rows) ≡ find (has_key s t) rows
  not_kept_key s t [] h = refl
  not_kept_key s t (r ∷ rows) h = elim (Bool-cases (r.seed_id == seed)) [
    | inl mine ↦ rw mine (not_kept_key s t rows h ∙ ground arith)
    | inr other ↦ ground (arith, not_kept_key s t rows h)
  ]

  none_kept :
      (rows : List RelayRecord)
      → keep (λ r. r.seed_id == seed) (keep (λ r. not (r.seed_id == seed)) rows) ≡ []
  none_kept [] = refl
  none_kept (r ∷ rows) = ground (arith, none_kept rows)

  -- When nothing of it fails, no record and no replica of the seed is left.
  pub record Cleared (db db' : Db) : Type 0 where
    pub no_records : records_of db' ≡ []
    pub no_replicas : replicas_of db' ≡ []
    pub same_seeds : db'.seeds ≡ db.seeds
    pub other_rows :
        (s t : ℕ) → s ≢ seed → find (has_key s t) db'.records ≡ find (has_key s t) db.records

  listed-Cleared :
      (db d : Db) (o : Option (List Replica))
      → (delete_listed o d).1 ≡ none
      → ((rs : List Replica) → o ≡ some rs → Owned seed rs d.replicas)
      → d.records ≡ keep (λ r. not (r.seed_id == seed)) db.records
      → d.seeds ≡ db.seeds
      → Cleared db (delete_listed o d).0
  unfolding delete_listed
  listed-Cleared db d none h o e s = absurd cc
  listed-Cleared db d (some rs) h o e s = elim (Bool-cases (delete_each rs d).1) [
    | inr failed ↦ absurd (let k = rw failed at h in cc)
    | inl fine ↦
        let (a, b, c) = delete_each-none rs d fine (o rs refl) in
        record {
          no_records = rw (b, e) (none_kept db.records);
          no_replicas = a;
          same_seeds = c ∙ s;
          other_rows = λ i t n. rw (b, e) (not_kept_key i t db.records n);
        }
  ]

  list_replicas-rows :
      (db : Db)
      → ((list_replicas seed db).0.records ≡ db.records)
        × ((list_replicas seed db).0.seeds ≡ db.seeds)
  unfolding list_replicas query
  list_replicas-rows db = ground arith

  pub clear_seed-Cleared :
      (db : Db) → (clear_seed seed db).1 ≡ none → Cleared db (clear_seed seed db).0
  unfolding clear_seed delete_records_of after_delete_records list_replicas
  clear_seed-Cleared db h = elim (Bool-cases (delete_records_of seed db).1) [
    | inr failed ↦ absurd (let k = rw failed at h in cc)
    | inl fine ↦
        let d = (delete_records_of seed db).0 in
        let e = exec_ok _ db fine in
        rw fine (
          listed-Cleared db (list_replicas seed d).0 (list_replicas seed d).1 (rw fine at h)
            (λ rs k. let (a, b) = query_ok _ d rs k in rw (a, b) (Owned-self seed d.replicas))
            ((list_replicas-rows d).0 ∙ ap (λ x. x.records) e)
            ((list_replicas-rows d).1 ∙ ap (λ x. x.seeds) e))
  ]
