-- ===== src/Engine/Monitor/Dropped.antt =====
-- The replicas of a seed and its retirement (backend/internal/engine/monitor.go).
use auto_seed_relay.Prelude.{
  ℕ, ◌≡◌, refl, sym, subst, Bool, true, false, List, [], ◌∷◌, arith, if◌then◌else◌, ◌==◌, any, keep,
  not, All, All-map, Bool-cases, inl, inr,
}
use auto_seed_relay.Store.Rows.{Db, Replica, exec, query, next_fault, spend}
use auto_seed_relay.Store.Replicas.{list_replicas, delete_replica}
use auto_seed_relay.Pipeline.Clean.{IsClean, spend-IsClean, exec-IsClean}
use auto_seed_relay.Engine.Monitor.Retire.{delete_replicas, drop_listed, drop_replicas}

abbrev pub Owned : ℕ → List Replica → List Replica → Type 0
Owned seed rs rows = All (λ r. (r.seed_id == seed) ≡ true → any (λ q. q.id == r.id) rs ≡ true) rows

any_more :
    (p : Replica → Bool) (c : Bool) (r : Replica) (xs : List Replica)
    → any p xs ≡ true
    → any p (if c then r ∷ xs else xs) ≡ true
any_more p true r xs h = ground arith
any_more p false r xs h = h

-- Whoever is looked for among the rows of a seed is found.
pub Owned-self :
    (seed : ℕ) (rows : List Replica) → Owned seed (keep (λ r. r.seed_id == seed) rows) rows
Owned-self seed [] = tt
Owned-self seed (r ∷ rows) = (
  (λ m. ground arith),
  All-map _ _ (λ x k m. any_more _ (r.seed_id == seed) r _ (k m)) rows (Owned-self seed rows),
)

pub Owned-step :
    (seed : ℕ) (q : Replica) (rs rows : List Replica)
    → Owned seed (q ∷ rs) rows
    → Owned seed rs (keep (λ r. not (r.id == q.id)) rows)
Owned-step seed q rs [] h = tt
Owned-step seed q rs (r ∷ rows) h = elim (Bool-cases (r.id == q.id)) [
  | inl same ↦ rw same (Owned-step seed q rs rows h.1)
  | inr other ↦ rw other ((λ m. let k = h.0 m in ground arith), Owned-step seed q rs rows h.1)
]

pub Owned-none :
    (seed : ℕ) (rows : List Replica) → Owned seed [] rows → keep (λ r. r.seed_id == seed) rows ≡ []
Owned-none seed [] h = refl
Owned-none seed (r ∷ rows) h = elim (Bool-cases (r.seed_id == seed)) [
  | inl mine ↦ absurd (let k = h.0 mine in cc)
  | inr other ↦ rw other (Owned-none seed rows h.1)
]

delete_replica-clean :
    (id : ℕ) (db : Db)
    → IsClean db
    → (delete_replica id db).0.replicas ≡ keep (λ r. not (r.id == id)) db.replicas
unfolding delete_replica exec
delete_replica-clean id db h = rw h refl

pub delete_replica-IsClean : (id : ℕ) (db : Db) → IsClean db → IsClean (delete_replica id db).0
unfolding delete_replica
delete_replica-IsClean id db h = exec-IsClean _ db (λ d. refl) h

delete_replicas-none :
    (seed : ℕ) (rs : List Replica) (db : Db)
    → IsClean db
    → Owned seed rs db.replicas
    → keep (λ r. r.seed_id == seed) (delete_replicas rs db).replicas ≡ []
unfolding delete_replicas
delete_replicas-none seed [] db h o = Owned-none seed db.replicas o
delete_replicas-none seed (q ∷ rs) db h o =
    delete_replicas-none seed rs (delete_replica q.id db).0 (delete_replica-IsClean q.id db h) (
      subst (Owned seed rs) (sym (delete_replica-clean q.id db h))
        (Owned-step seed q rs db.replicas o))

pub drop_replicas-none :
    (seed : ℕ) (db : Db)
    → IsClean db
    → keep (λ r. r.seed_id == seed) (drop_replicas seed db).replicas ≡ []
unfolding drop_replicas list_replicas query drop_listed
drop_replicas-none seed db h =
    let fine : next_fault db.faults ≡ false = rw h refl in
    rw fine (
      delete_replicas-none seed (keep (λ r. r.seed_id == seed) db.replicas) (spend db)
        (spend-IsClean db h) (Owned-self seed db.replicas))
