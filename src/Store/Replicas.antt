-- ===== src/Store/Replicas.antt =====
-- backend/internal/store/replicas.go: the copies of a seed on the qB instances.
use text.Mathlib.Text.{◌==◌ as str_eq}
use auto_seed_relay.Prelude.{
  ℕ, ◌+◌, Bool, List, [], ◌∷◌, ◌++◌, Option, none, some, ◌==◌, ◌&&◌, keep, not,
}
use auto_seed_relay.Store.Rows.{Db, Replica, exec, query, update_where, find}

abbrev pub same_copy : Replica → Replica → Bool
same_copy r s = (s.seed_id == r.seed_id) && (s.qb_id == r.qb_id) && str_eq s.role r.role

unfoldable pub list_replicas : ℕ → Db → Db × Option (List Replica)
list_replicas seed = query (λ db. keep (λ r. r.seed_id == seed) db.replicas)

unfoldable pub list_replicas_by_qb : ℕ → Db → Db × Option (List Replica)
list_replicas_by_qb qb = query (λ db. keep (λ r. r.qb_id == qb) db.replicas)

merge : Replica → Option Replica → Db → Db
merge r none db = record db {
  replicas = db.replicas ++ record r { id = db.next_replica } ∷ [];
  next_replica = db.next_replica + 1;
}
merge r (some old) db = record db {
  replicas =
      update_where (same_copy r)
        (λ s. record s { info_hash = r.info_hash; status = r.status; progress = r.progress })
        db.replicas;
}

-- `UpsertReplica`
unfoldable pub upsert_replica : Replica → Db → Db × Bool
unfolding merge
upsert_replica r = exec (λ db. merge r (find (same_copy r) db.replicas) db)

unfoldable pub update_replica_progress : ℕ → ℕ → Db → Db × Bool
update_replica_progress id progress = exec (λ db. record db {
  replicas = update_where (λ r. r.id == id) (λ r. record r { progress = progress }) db.replicas;
})

unfoldable pub delete_replica : ℕ → Db → Db × Bool
delete_replica id = exec (λ db. record db { replicas = keep (λ r. not (r.id == id)) db.replicas })
