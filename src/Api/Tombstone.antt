-- ===== src/Api/Tombstone.antt =====
-- Polling after a seed was handed to the workers (backend/internal/engine/poller.go), with deletions
-- through backend/internal/api/ops_seeds.go in between.
use text.Mathlib.Text.{◌==◌ as str_eq}
use text.Mathlib.TextEquality.{eq_iff}
use auto_seed_relay.Prelude.{
  ℕ, ◌≡◌, ◌≢◌, refl, ap, ◌∙◌, Bool, true, false, List, [], ◌∷◌, ◌++◌, Option, none, some, String,
  arith, ◌&&◌, Bool-cases, inl, inr, ◌⊎◌,
}
use auto_seed_relay.Store.Rows.{Db}
use auto_seed_relay.Store.Seeds.{is_seen, has_seen, mark_seen}
use auto_seed_relay.Store.Promises.{apply-seen}
use auto_seed_relay.Engine.Poll.Ingest.{
  RssItem, Filter, Source, Poller, item_matches_strategy, with_poll_db, after_mark, after_seen,
  ingest_item,
}
use auto_seed_relay.Engine.Poll.Marks.{times, times-append, after_mark-Grows}
use auto_seed_relay.Engine.Poll.Unique.{
  PollEvent, ingests, stores, poll_event, has_seen-cases, has_seen-seen, mark_seen_mono,
}
use auto_seed_relay.Api.Ops.{Response, ok, not_found, conflict, server_error, delete_seed}
use auto_seed_relay.Api.Atomic.{delete_seed_atomic}

-- The key is marked, and was not handed over again.
record Buried (site hash : String) (e e' : Poller) : Type 0 where
  pub same_times : times site hash e'.submitted ≡ times site hash e.submitted
  pub still_seen : is_seen site hash e'.db.seen ≡ true

module _ (site hash : String) where
  Buried-same :
      (e e' : Poller)
      → is_seen site hash e'.db.seen ≡ true
      → e'.submitted ≡ e.submitted
      → Buried site hash e e'
  Buried-same e e' h k = record { same_times = rw k refl; still_seen = h }

  other_key :
      (src : Source) (item : RssItem) (e e' : Poller)
      → (str_eq src.name site && str_eq item.hash hash) ≡ false
      → is_seen site hash e'.db.seen ≡ true
      → (e'.submitted ≡ e.submitted) ⊎ (e'.submitted ≡ e.submitted ++ (src.name, item.hash) ∷ [])
      → Buried site hash e e'
  other_key src item e e' n h (inl same) = Buried-same e e' h same
  other_key src item e e' n h (inr more) = record {
    same_times =
        rw (more, times-append site hash e.submitted ((src.name, item.hash) ∷ []), n) (omega arith);
    still_seen = h;
  }

  seen_differs :
      (a b : String) (seen : List (String × String))
      → is_seen site hash seen ≡ true
      → is_seen a b seen ≡ false
      → (str_eq a site && str_eq b hash) ≡ false
  seen_differs a b seen h k = elim (Bool-cases (str_eq a site && str_eq b hash)) [
    | inr other ↦ other
    | inl mine ↦ absurd (
        let ea : a ≡ site = ground (arith, eq_iff a site) in
        let eb : b ≡ hash = ground (arith, eq_iff b hash) in let m = rw (ea, eb) at k in cc)
  ]

  marked-Buried :
      (src : Source) (item : RssItem) (marked : Bool) (e : Poller)
      → is_seen site hash e.db.seen ≡ true
      → is_seen src.name item.hash e.db.seen ≡ false
      → Buried site hash e
          (after_mark src item marked (with_poll_db (mark_seen src.name item.hash e.db).0 e))
  marked-Buried src item false e h k =
      unfold after_mark in Buried-same e _ (mark_seen_mono site hash src.name item.hash e.db h) refl
  marked-Buried src item true e h k =
      let e1 = with_poll_db (mark_seen src.name item.hash e.db).0 e in
      let g = after_mark-Grows src item e1 in
      other_key src item e _ (seen_differs src.name item.hash e.db.seen h k)
        (ap (is_seen site hash) g.same_seen ∙ mark_seen_mono site hash src.name item.hash e.db h)
        g.grown

  seen-Buried :
      (src : Source) (item : RssItem) (o : Option Bool) (e : Poller)
      → (o ≡ none) ⊎ (o ≡ some (is_seen src.name item.hash e.db.seen))
      → is_seen site hash e.db.seen ≡ true
      → Buried site hash e (after_seen src item o e)
  unfolding after_seen
  seen-Buried src item none e h k = Buried-same e e k refl
  seen-Buried src item (some true) e h k = Buried-same e e k refl
  seen-Buried src item (some false) e h k = marked-Buried src item _ e k (ground arith)

  ingest_item-Buried :
      (hits : RssItem → String → Bool) (f : Filter) (src : Source) (item : RssItem) (e : Poller)
      → is_seen site hash e.db.seen ≡ true
      → Buried site hash e (ingest_item hits f src item e)
  unfolding ingest_item
  ingest_item-Buried hits f src item e h =
      let e1 = with_poll_db (has_seen src.name item.hash e.db).0 e in
      let same = has_seen-seen site hash src.name item.hash e.db in
      let b =
        seen-Buried src item (has_seen src.name item.hash e.db).1 e1
          (rw same (has_seen-cases site hash src.name item.hash e.db)) (rw same h) in
      elim (Bool-cases (item_matches_strategy hits f item)) [
        | inl fits ↦ rw fits (record { same_times = b.same_times; still_seen = b.still_seen })
        | inr other ↦ rw other (Buried-same e e h refl)
      ]

  ok-cases : (r : Response) → (r ≡ ok) ⊎ (r ≢ ok)
  ok-cases ok = inl refl
  ok-cases not_found = inr (λ h. absurd cc)
  ok-cases conflict = inr (λ h. absurd cc)
  ok-cases server_error = inr (λ h. absurd cc)

  delete_seed-seen : (seed : ℕ) (db : Db) → (delete_seed seed db).0.seen ≡ db.seen
  delete_seed-seen seed db =
      let d = delete_seed_atomic seed db in
      elim (ok-cases (delete_seed seed db).1) [
        | inl done ↦ (d.0 done).seen
        | inr kept ↦ (d.1 kept).seen
      ]

-- What happens later: an event of polling, or the deletion of a seed with the statements that fail.
pub data SeedEvent : Type 0 where
  polls : PollEvent → SeedEvent
  deletes : ℕ → List Bool → SeedEvent

unfoldable pub seed_event : (RssItem → String → Bool) → SeedEvent → Poller → Poller
seed_event hits (polls x) e = poll_event hits x e
seed_event hits (deletes seed faults) e =
    with_poll_db (delete_seed seed (record e.db { faults = faults })).0 e

unfoldable pub seed_events : (RssItem → String → Bool) → List SeedEvent → Poller → Poller
seed_events hits [] e = e
seed_events hits (x ∷ xs) e = seed_events hits xs (seed_event hits x e)

seed_event-Buried :
    (site hash : String) (hits : RssItem → String → Bool) (x : SeedEvent) (e : Poller)
    → is_seen site hash e.db.seen ≡ true
    → Buried site hash e (seed_event hits x e)
unfolding seed_event poll_event
seed_event-Buried site hash hits (polls (ingests f src item faults)) e h =
    let b =
      ingest_item-Buried site hash hits f src item
        (with_poll_db (record e.db { faults = faults }) e) h in
    record { same_times = b.same_times; still_seen = b.still_seen }
seed_event-Buried site hash hits (polls (stores o)) e h =
    Buried-same site hash e _ (apply-seen site hash o e.db h) refl
seed_event-Buried site hash hits (deletes seed faults) e h =
    Buried-same site hash e _
      (rw (delete_seed-seen site hash seed (record e.db { faults = faults })) h) refl

-- Once the hash of an item is marked as seen, it is not handed to the workers again: whatever is polled
-- later under whatever filters, whatever other statements run, whichever seeds are deleted and whichever
-- statements fail. This holds for an item whose hand-over was dropped, too.
pub seen_not_resubmitted :
    (site hash : String) (hits : RssItem → String → Bool) (xs : List SeedEvent) (e : Poller)
    → is_seen site hash e.db.seen ≡ true
    → times site hash (seed_events hits xs e).submitted ≡ times site hash e.submitted
unfolding seed_events
seen_not_resubmitted site hash hits [] e h = refl
seen_not_resubmitted site hash hits (x ∷ xs) e h =
    let b = seed_event-Buried site hash hits x e h in
    seen_not_resubmitted site hash hits xs (seed_event hits x e) b.still_seen ∙ b.same_times
