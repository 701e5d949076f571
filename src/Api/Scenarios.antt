-- ===== src/Api/Scenarios.antt =====
-- Handlers on one seed (backend/internal/api/ops_seeds.go).
use auto_seed_relay.Prelude.{◌≡◌, ◌≢◌, refl, true, false, String, [], ◌∷◌, none, some, List, Bool}
use auto_seed_relay.Store.Rows.{Db, Seed, empty_db}
use auto_seed_relay.Pipeline.Clean.{IsClean}
use auto_seed_relay.Engine.Lifecycle.Resend.{mid_flight}
use auto_seed_relay.Engine.Lifecycle.Resent.{seed_row}
use auto_seed_relay.Engine.Poll.Ingest.{RssItem, Filter, Source, Poller}
use auto_seed_relay.Engine.Poll.Marks.{times}
use auto_seed_relay.Engine.Poll.Unique.{ingests}
use auto_seed_relay.Api.Ops.{ok, delete_seed}
use auto_seed_relay.Api.Atomic.{SameTables, Deleted, delete_seed_atomic}
use auto_seed_relay.Api.Tombstone.{SeedEvent, polls, deletes, seed_events, seen_not_resubmitted}

abbrev finished_seed : Seed
finished_seed = record {
  id = 7;
  source_site = "site";
  info_hash = "aa";
  title = "";
  size = 0;
  category = "";
  promotion = "";
  source_id = 1;
  status = "seeding";
  error = "";
  retry_count = 0;
  updated_at = 0;
}

abbrev one_seed : Db
one_seed = record (empty_db []) { seeds = finished_seed ∷ []; seen = ("site", "aa") ∷ [] }

delete_seed_atomic_example :
    let (db', r) = delete_seed 7 one_seed in
    (r ≡ ok → Deleted 7 one_seed db')
    × (r ≢ ok → SameTables one_seed db')
    × ((s : Seed) → seed_row 7 one_seed ≡ some s → mid_flight s ≡ true → r ≢ ok)
    × (seed_row 7 one_seed ≡ none → r ≢ ok)
    × ((s : Seed) → IsClean one_seed → seed_row 7 one_seed ≡ some s → mid_flight s ≡ false → r ≡ ok)
delete_seed_atomic_example = delete_seed_atomic 7 one_seed

abbrev same_item : RssItem
same_item = record { hash = "aa"; title = ""; description = ""; size = none; category_name = "" }

abbrev any_item : Filter
any_item = record { keywords = []; min_size = 0; max_size = 0 }

abbrev the_site : Source
the_site = record { id = 1; name = "site" }

abbrev never_hits : RssItem → String → Bool
never_hits item keyword = false

-- The seed is deleted, and its item polled again.
abbrev deleted_and_polled : List SeedEvent
deleted_and_polled = deletes 7 [] ∷ polls (ingests any_item the_site same_item []) ∷ []

abbrev handed_once : Poller
handed_once = record { db = one_seed; submitted = ("site", "aa") ∷ [] }

seen_not_resubmitted_example :
    times "site" "aa" (seed_events never_hits deleted_and_polled handed_once).submitted
    ≡ times "site" "aa" handed_once.submitted
seen_not_resubmitted_example =
    seen_not_resubmitted "site" "aa" never_hits deleted_and_polled handed_once refl
