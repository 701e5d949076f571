-- ===== src/Api/Ops.antt =====
-- `deleteSeed` and `resendSeed` of backend/internal/api/ops_seeds.go, for a request whose id was parsed
-- and a repository and an engine that are there. A response is its status.
use auto_seed_relay.Prelude.{
  ℕ, Bool, true, false, Option, none, some, if◌then◌else◌, ◌==◌, keep, not, List, [], ◌∷◌,
}
use auto_seed_relay.Store.Rows.{Db, Seed, exec}
use auto_seed_relay.Store.Seeds.{get_seed_by_id}
use auto_seed_relay.Engine.Submit.Job.{Engine}
use auto_seed_relay.Engine.Monitor.Retire.{with_engine_db}
use auto_seed_relay.Engine.Lifecycle.Resend.{ResendError, mid_flight, resend_seed}

pub data Response : Type 0 where
  ok not_found conflict server_error : Response

-- The statements of the transaction, as the changes that they make; its beginning and its end may fail
-- like a statement, and change nothing.
abbrev pub delete_statements : ℕ → List (Db → Db)
delete_statements seed =
    (λ d. d)
    ∷ (λ d. record d { records = keep (λ r. not (r.seed_id == seed)) d.records })
    ∷ (λ d. record d { replicas = keep (λ r. not (r.seed_id == seed)) d.replicas })
    ∷ (λ d. record d { logs = keep (λ l. not (l.seed_id == seed)) d.logs })
    ∷ (λ d. record d { seeds = keep (λ s. not (s.id == seed)) d.seeds })
    ∷ (λ d. d)
    ∷ []

-- The statements are run up to the first error.
unfoldable pub run_statements : List (Db → Db) → Db → Db × Bool
run_statements [] db = (db, true)
run_statements (f ∷ fs) db =
    let (db', fine) = exec f db in
    let rest = run_statements fs db' in if fine then rest else (db', false)

-- After an error the deferred Rollback leaves the tables as they were.
unfoldable pub settle_transaction : Db → Db → Bool → Db × Response
settle_transaction before after true = (after, ok)
settle_transaction before after false = (record before { faults = after.faults }, server_error)

unfoldable pub delete_rows : ℕ → Db → Db × Response
delete_rows seed db =
    let (db', fine) = run_statements (delete_statements seed) db in settle_transaction db db' fine

unfoldable pub delete_found : ℕ → Option (Option Seed) → Db → Db × Response
delete_found seed none db = (db, server_error)
delete_found seed (some none) db = (db, not_found)
delete_found seed (some (some s)) db =
    let deleted = delete_rows seed db in if mid_flight s then (db, conflict) else deleted

-- `deleteSeed`
unfoldable pub delete_seed : ℕ → Db → Db × Response
delete_seed seed db = let (db', found) = get_seed_by_id seed db in delete_found seed found db'

abbrev resend_response : Option ResendError → Response
resend_response none = ok
resend_response (some error) = server_error

unfoldable pub resend_found : ℕ → ℕ → Bool → Option (Option Seed) → Engine → Engine × Response
resend_found now seed full none e = (e, server_error)
resend_found now seed full (some none) e = (e, not_found)
resend_found now seed full (some (some s)) e =
    let (e', error) = resend_seed now seed full e in (e', resend_response error)

-- `resendSeed`; a body that does not parse leaves `full` false.
unfoldable pub resend_request : ℕ → ℕ → Bool → Engine → Engine × Response
resend_request now seed full e =
    let (db, found) = get_seed_by_id seed e.db in
    resend_found now seed full found (with_engine_db db e)
