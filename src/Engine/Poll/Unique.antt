-- ===== src/Engine/Poll/Unique.antt =====
-- How often an item is handed to the workers (backend/internal/engine/poller.go).
use text.Mathlib.Text.{◌==◌ as str_eq}
use text.Mathlib.TextEquality.{eq_iff}
use auto_seed_relay.Prelude.{
  ◌≡◌, refl, sym, ap, ◌∙◌, Bool, true, false, List, [], ◌∷◌, ◌++◌, Option, none, some, String,
  arith, if◌then◌else◌, ◌&&◌, Bool-cases, inl, inr, ◌⊎◌,
}
use auto_seed_relay.Store.Rows.{Db, query, next_fault, empty_db}
use auto_seed_relay.Store.Seeds.{is_seen, has_seen, mark_seen}
use auto_seed_relay.Store.Operations.{Operation, apply, marks_seen}
use auto_seed_relay.Store.Promises.{apply-seen}
use auto_seed_relay.Engine.Poll.Ingest.{
  RssItem, Filter, Source, Poller, item_matches_strategy, with_poll_db, after_mark, after_seen,
  ingest_item,
}
use auto_seed_relay.Engine.Poll.Marks.{
  times, times-append, Once, mark_seen-seen, query-seen, after_mark-Grows,
}

contrapose : (b c : Bool) → (b ≡ true → c ≡ true) → c ≡ false → b ≡ false
contrapose false c m h = refl
contrapose true c m h = absurd (let k = m refl in cc)

same_key :
    (a b site hash : String) → (str_eq a site && str_eq b hash) ≡ true → (a ≡ site) × (b ≡ hash)
same_key a b site hash h = ground (arith, eq_iff a site, eq_iff b hash)

module _ (site hash : String) where
  Once-same :
      (e e' : Poller)
      → (is_seen site hash e.db.seen ≡ true → is_seen site hash e'.db.seen ≡ true)
      → e'.submitted ≡ e.submitted
      → Once site hash e
      → Once site hash e'
  Once-same e e' m k o = record {
    at_most = rw k o.at_most;
    unseen = λ u. rw k (o.unseen (contrapose _ _ m u));
  }

  Once-more :
      (a b : String) (e e' : Poller)
      → is_seen a b e.db.seen ≡ false
      → is_seen a b e'.db.seen ≡ true
      → (is_seen site hash e.db.seen ≡ true → is_seen site hash e'.db.seen ≡ true)
      → e'.submitted ≡ e.submitted ++ (a, b) ∷ []
      → Once site hash e
      → Once site hash e'
  Once-more a b e e' f g m k o = elim (Bool-cases (str_eq a site && str_eq b hash)) [
    | inr other ↦
        let count : times site hash e'.submitted ≡ times site hash e.submitted =
          rw (k, times-append site hash e.submitted ((a, b) ∷ []), other) (omega arith) in
        record {
          at_most = rw count o.at_most;
          unseen = λ u. rw count (o.unseen (contrapose _ _ m u));
        }
    | inl mine ↦
        let (ea, eb) = same_key a b site hash mine in
        let none_yet = o.unseen (rw (sym ea, sym eb) f) in
        let count : times site hash e'.submitted ≡ 1 =
          rw (k, times-append site hash e.submitted ((a, b) ∷ []), mine)
            (omega (arith, none_yet)) in
        record {
          at_most = omega (arith, count);
          unseen = λ u. absurd (let v = rw (ea, eb) at g in cc);
        }
  ]

  pub mark_seen_mono :
      (a b : String) (db : Db)
      → is_seen site hash db.seen ≡ true
      → is_seen site hash (mark_seen a b db).0.seen ≡ true
  unfolding apply
  mark_seen_mono a b db h = apply-seen site hash (marks_seen a b) db h

  marked-Once :
      (src : Source) (item : RssItem) (marked : Bool) (e : Poller)
      → (mark_seen src.name item.hash e.db).1 ≡ marked
      → is_seen src.name item.hash e.db.seen ≡ false
      → Once site hash e
      → Once site hash
          (after_mark src item marked (with_poll_db (mark_seen src.name item.hash e.db).0 e))
  marked-Once src item false e h u o =
      unfold after_mark in Once-same e _ (mark_seen_mono src.name item.hash e.db) refl o
  marked-Once src item true e h u o =
      let e1 = with_poll_db (mark_seen src.name item.hash e.db).0 e in
      let g = after_mark-Grows src item e1 in
      let m : is_seen site hash e.db.seen ≡ true
          → is_seen site hash (after_mark src item true e1).db.seen ≡ true =
        λ t. ap (is_seen site hash) g.same_seen ∙ mark_seen_mono src.name item.hash e.db t in
      elim g.grown [
        | inl same ↦ Once-same e (after_mark src item true e1) m same o
        | inr more ↦
            Once-more src.name item.hash e (after_mark src item true e1) u
              (ap (is_seen src.name item.hash) g.same_seen
                ∙ mark_seen-seen src.name item.hash e.db h)
              m more o
      ]

  pub has_seen-cases :
      (a b : String) (db : Db)
      → ((has_seen a b db).1 ≡ none) ⊎ ((has_seen a b db).1 ≡ some (is_seen a b db.seen))
  unfolding has_seen query
  has_seen-cases a b db = elim (Bool-cases (next_fault db.faults)) [
    | inl fault ↦ inl (rw fault refl)
    | inr fine ↦ inr (rw fine refl)
  ]

  pub has_seen-seen : (a b : String) (db : Db) → (has_seen a b db).0.seen ≡ db.seen
  unfolding has_seen
  has_seen-seen a b db = query-seen _ db

  seen-Once :
      (src : Source) (item : RssItem) (o : Option Bool) (e : Poller)
      → (o ≡ none) ⊎ (o ≡ some (is_seen src.name item.hash e.db.seen))
      → Once site hash e
      → Once site hash (after_seen src item o e)
  unfolding after_seen
  seen-Once src item none e h k = k
  seen-Once src item (some true) e h k = k
  seen-Once src item (some false) e h k = marked-Once src item _ e refl (ground arith) k

  if-Once :
      (c : Bool) (x y : Poller)
      → Once site hash x
      → Once site hash y
      → Once site hash (if c then x else y)
  if-Once true x y h k = h
  if-Once false x y h k = k

  ingest_item-Once :
      (hits : RssItem → String → Bool) (f : Filter) (src : Source) (item : RssItem) (e : Poller)
      → Once site hash e
      → Once site hash (ingest_item hits f src item e)
  unfolding ingest_item
  ingest_item-Once hits f src item e o =
      let db = (has_seen src.name item.hash e.db).0 in
      let same = has_seen-seen src.name item.hash e.db in
      let e1 = with_poll_db db e in
      let o1 = Once-same e e1 (λ t. ap (is_seen site hash) same ∙ t) refl o in
      if-Once (item_matches_strategy hits f item) _ e
        (seen-Once src item (has_seen src.name item.hash e.db).1 e1
          (rw same (has_seen-cases src.name item.hash e.db)) o1)
        o

-- What happens while the sources are polled: an item is ingested under the strategy's filter of that
-- time and with the statements that fail, or another statement runs on the store.
pub data PollEvent : Type 0 where
  ingests : Filter → Source → RssItem → List Bool → PollEvent
  stores : Operation → PollEvent

unfoldable pub poll_event : (RssItem → String → Bool) → PollEvent → Poller → Poller
poll_event hits (ingests f src item faults) e =
    ingest_item hits f src item (with_poll_db (record e.db { faults = faults }) e)
poll_event hits (stores o) e = with_poll_db (apply o e.db) e

unfoldable pub poll_events : (RssItem → String → Bool) → List PollEvent → Poller → Poller
poll_events hits [] e = e
poll_events hits (x ∷ xs) e = poll_events hits xs (poll_event hits x e)

abbrev pub fresh_poller : Poller
fresh_poller = record { db = empty_db []; submitted = [] }

poll_event-Once :
    (site hash : String) (hits : RssItem → String → Bool) (x : PollEvent) (e : Poller)
    → Once site hash e
    → Once site hash (poll_event hits x e)
unfolding poll_event
poll_event-Once site hash hits (ingests f src item faults) e o =
    let e1 = with_poll_db (record e.db { faults = faults }) e in
    ingest_item-Once site hash hits f src item e1 (Once-same site hash e e1 (λ t. t) refl o)
poll_event-Once site hash hits (stores p) e o =
    Once-same site hash e (with_poll_db (apply p e.db) e) (apply-seen site hash p e.db) refl o

poll_events-Once :
    (site hash : String) (hits : RssItem → String → Bool) (xs : List PollEvent) (e : Poller)
    → Once site hash e
    → Once site hash (poll_events hits xs e)
unfolding poll_events
poll_events-Once site hash hits [] e o = o
poll_events-Once site hash hits (x ∷ xs) e o =
    poll_events-Once site hash hits xs _ (poll_event-Once site hash hits x e o)

-- From the empty database on, whatever items are polled in whatever order and under whatever filters,
-- whatever other statements run in between and whichever statements fail: a source site and hash are
-- handed to the workers at most once, and never before they are marked as seen.
pub polled-Once :
    (site hash : String) (hits : RssItem → String → Bool) (xs : List PollEvent)
    → Once site hash (poll_events hits xs fresh_poller)
polled-Once site hash hits xs =
    poll_events-Once site hash hits xs fresh_poller
      (record { at_most = omega arith; unseen = λ u. refl })
