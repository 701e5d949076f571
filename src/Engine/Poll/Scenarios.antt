-- ===== src/Engine/Poll/Scenarios.antt =====
-- Items that are polled twice (backend/internal/engine/poller.go).
use auto_seed_relay.Prelude.{Bool, true, false, List, [], ◌∷◌, some, String}
use auto_seed_relay.Prelude.{ℕ, ◌≡◌, ◌++◌, ◌==◌, if◌then◌else◌, refl, lookup-empty, nat_eq, arith}
use auto_seed_relay.Engine.Submit.Job.{critical}
use auto_seed_relay.Engine.Poll.Source.{Watch}
use auto_seed_relay.Engine.Poll.Pause.{fail_at, state_of, pauses_at_third}
use auto_seed_relay.Store.Operations.{marks_seen}
use auto_seed_relay.Engine.Poll.Ingest.{RssItem, Filter, Source}
use auto_seed_relay.Engine.Poll.Marks.{Once}
use auto_seed_relay.Engine.Poll.Unique.{
  PollEvent, ingests, stores, poll_events, fresh_poller, polled-Once,
}

abbrev source : Source
source = record { id = 1; name = "mteam" }

abbrev all_items : Filter
all_items = record { keywords = []; min_size = 0; max_size = 0 }

abbrev rss_item : RssItem
rss_item = record {
  hash = "abcd";
  title = "t";
  description = "";
  size = some 7;
  category_name = "movie";
}

-- The item is in two polls; in the first the seed is not created.
abbrev polls : List PollEvent
polls =
    ingests all_items source rss_item (false ∷ false ∷ false ∷ true ∷ [])
    ∷ stores (marks_seen "mteam" "ef")
    ∷ ingests all_items source rss_item []
    ∷ []

abbrev never : RssItem → String → Bool
never item keyword = false

polled-Once_example : Once "mteam" "abcd" (poll_events never polls fresh_poller)
polled-Once_example = polled-Once "mteam" "abcd" never polls

-- The waits after a failure, in seconds.
abbrev waits : ℕ → ℕ
waits n = if n == 0 then 60 else 300

abbrev watch : Watch
watch = record { poll_state = []; paused = []; alerts = [] }

pauses_at_third_example :
    let w2 = fail_at waits true 7 400 (fail_at waits true 7 100 watch) in
    (w2.alerts ≡ watch.alerts)
    × (w2.paused ≡ watch.paused)
    × ((fail_at waits true 7 800 w2).alerts
        ≡ watch.alerts ++ record { level = critical; event = "source_pause" } ∷ [])
    × ((fail_at waits true 7 800 w2).paused
        ≡ (if true then watch.paused ++ 7 ∷ [] else watch.paused))
    × (state_of waits true 7 (fail_at waits true 7 800 w2) ≡ record { fails = 0; next_allowed = 0 })
pauses_at_third_example =
    pauses_at_third waits true 7 100 400 800 watch (lookup-empty 7 watch.poll_state refl)
      (omega arith) (omega arith)
