-- ===== src/Store/Operations.antt =====
-- The statements of backend/internal/store that write to the tables of the relay core. What other
-- packages run on the raw handle, such as the deletion of a seed, is not among them.
use auto_seed_relay.Prelude.{ℕ, List, [], ◌∷◌, String}
use auto_seed_relay.Store.Rows.{Db, Seed, RelayRecord, Replica}
use auto_seed_relay.Store.Seeds.{
  create_seed, update_seed_status, update_seed_promotion, bump_retry, mark_seen, append_log,
}
use auto_seed_relay.Store.Records.{
  upsert_record, set_record_role, mark_published, update_record_status, update_record_attempt,
  mark_retired,
}
use auto_seed_relay.Store.Replicas.{upsert_replica, update_replica_progress, delete_replica}

pub data Operation : Type 0 where
  creates_seed : Seed → Operation
  sets_seed_status : ℕ → String → String → Operation
  sets_promotion : ℕ → String → Operation
  bumps_retry : ℕ → Operation
  marks_seen : String → String → Operation
  appends_log : ℕ → String → String → Operation
  claims_record : RelayRecord → Operation
  sets_role : ℕ → ℕ → String → Operation
  publishes : ℕ → ℕ → ℕ → Operation
  sets_record_status : ℕ → ℕ → String → String → Operation
  attempts : ℕ → ℕ → String → String → Operation
  retires : ℕ → ℕ → String → Operation
  puts_replica : Replica → Operation
  sets_progress : ℕ → ℕ → Operation
  drops_replica : ℕ → Operation

unfoldable pub apply : Operation → Db → Db
apply (creates_seed s) db = (create_seed s db).0
apply (sets_seed_status id status error) db = (update_seed_status id status error db).0
apply (sets_promotion id promotion) db = (update_seed_promotion id promotion db).0
apply (bumps_retry id) db = (bump_retry id db).0
apply (marks_seen site hash) db = (mark_seen site hash db).0
apply (appends_log seed level action) db = (append_log seed level action db).0
apply (claims_record r) db = (upsert_record r db).0
apply (sets_role seed target role) db = (set_record_role seed target role db).0
apply (publishes seed target at) db = (mark_published seed target at db).0
apply (sets_record_status seed target status error) db =
    (update_record_status seed target status error db).0
apply (attempts seed target status error) db = (update_record_attempt seed target status error db).0
apply (retires seed target reason) db = (mark_retired seed target reason db).0
apply (puts_replica r) db = (upsert_replica r db).0
apply (sets_progress id progress) db = (update_replica_progress id progress db).0
apply (drops_replica id) db = (delete_replica id db).0

unfoldable pub apply_all : List Operation → Db → Db
apply_all [] db = db
apply_all (o ∷ os) db = apply_all os (apply o db)
