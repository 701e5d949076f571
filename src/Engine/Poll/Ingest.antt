-- ===== src/Engine/Poll/Ingest.antt =====
-- `ingestItem` and `itemMatchesStrategy` of backend/internal/engine/poller.go. The hash of an item is
-- what `source.GuidToInfohash` gives; whether a text contains a keyword, lower case and trimmed, is an
-- argument. `enqueue` hands the seed to the workers: `submitted` lists what was handed over.
use auto_seed_relay.Prelude.{
  ℕ, Bool, true, false, List, [], ◌∷◌, ◌++◌, Option, none, some, String, if◌then◌else◌, ltb, ◌&&◌,
  not, any, length, ◌==◌,
}
use auto_seed_relay.Store.Rows.{Db, Seed}
use auto_seed_relay.Store.Seeds.{has_seen, mark_seen, get_seed_by_hash, create_seed, append_log}

pub record RssItem : Type 0 where
  pub hash : String
  pub title : String
  pub description : String
  pub size : Option ℕ
  pub category_name : String

-- The columns of the strategy that filter items; 0 is no bound.
pub record Filter : Type 0 where
  pub keywords : List String
  pub min_size : ℕ
  pub max_size : ℕ

pub record Source : Type 0 where
  pub id : ℕ
  pub name : String

-- What polling changes: the database and the seeds handed to the workers, each with its key.
pub record Poller : Type 0 where
  pub db : Db
  pub submitted : List (String × String)

abbrev pub size_fits : Filter → Option ℕ → Bool
size_fits f none = true
size_fits f (some size) =
    if ltb 0 f.min_size && ltb size f.min_size
    then false
    else not (ltb 0 f.max_size && ltb f.max_size size)

-- `itemMatchesStrategy`
unfoldable pub item_matches_strategy : (RssItem → String → Bool) → Filter → RssItem → Bool
item_matches_strategy hits f item =
    if (length f.keywords == 0)
    then size_fits f item.size
    else if any (hits item) f.keywords
    then size_fits f item.size
    else false

abbrev pub with_poll_db : Db → Poller → Poller
with_poll_db db e = record e { db = db }

abbrev pub size_of : Option ℕ → ℕ
size_of none = 0
size_of (some n) = n

abbrev pub discovered : Source → RssItem → Seed
discovered src item = record {
  id = 0;
  source_site = src.name;
  info_hash = item.hash;
  title = item.title;
  size = size_of item.size;
  category = item.category_name;
  promotion = "";
  source_id = src.id;
  status = "discovered";
  error = "";
  retry_count = 0;
  updated_at = 0;
}

-- What follows `CreateSeed`.
unfoldable pub after_create : Source → RssItem → Option ℕ → Poller → Poller
after_create src item none e = e
after_create src item (some id) e = record {
  db = (append_log 0 "info" "discovered" e.db).0;
  submitted = e.submitted ++ (src.name, item.hash) ∷ [];
}

-- What follows `GetSeedByHash`.
unfoldable pub after_lookup : Source → RssItem → Option (Option Seed) → Poller → Poller
after_lookup src item none e = e
after_lookup src item (some (some old)) e = e
after_lookup src item (some none) e =
    let (db, id) = create_seed (discovered src item) e.db in
    after_create src item id (with_poll_db db e)

-- What follows `MarkSeen`.
unfoldable pub after_mark : Source → RssItem → Bool → Poller → Poller
after_mark src item false e = e
after_mark src item true e =
    let (db, row) = get_seed_by_hash src.name item.hash e.db in
    after_lookup src item row (with_poll_db db e)

-- What follows `HasSeen`.
unfoldable pub after_seen : Source → RssItem → Option Bool → Poller → Poller
after_seen src item none e = e
after_seen src item (some true) e = e
after_seen src item (some false) e =
    let (db, marked) = mark_seen src.name item.hash e.db in
    after_mark src item marked (with_poll_db db e)

-- `ingestItem`
unfoldable pub ingest_item : (RssItem → String → Bool) → Filter → Source → RssItem → Poller → Poller
ingest_item hits f src item e =
    let (db, seen) = has_seen src.name item.hash e.db in
    let e' = after_seen src item seen (with_poll_db db e) in
    if item_matches_strategy hits f item then e' else e
