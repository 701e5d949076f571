-- ===== src/Engine/Poll/Marks.antt =====
-- What `ingestItem` marks and hands over (backend/internal/engine/poller.go).
use text.Mathlib.Text.{◌==◌ as str_eq}
use text.Mathlib.TextEquality.{eq_iff}
use auto_seed_relay.Prelude.{
  ℕ, ◌+◌, ◌≤◌, ◌≡◌, refl, ap, ◌∙◌, true, false, List, [], ◌∷◌, ◌++◌, Option, none, some, String,
  arith, if◌then◌else◌, ◌&&◌, inl, inr, ◌⊎◌,
}
use auto_seed_relay.Store.Rows.{Db, Seed, exec, query}
use auto_seed_relay.Store.Seeds.{is_seen, mark_seen, get_seed_by_hash, append_log}
use auto_seed_relay.Store.Promises.{create_seed-seen}
use auto_seed_relay.Engine.Poll.Ingest.{
  RssItem, Source, Poller, discovered, after_create, after_lookup, after_mark,
}

-- How often a key was handed over.
abbrev pub times : String → String → List (String × String) → ℕ
times site hash [] = 0
times site hash ((s, h) ∷ rest) =
    (if str_eq s site && str_eq h hash then 1 else 0) + times site hash rest

pub times-append :
    (site hash : String) (xs ys : List (String × String))
    → times site hash (xs ++ ys) ≡ times site hash xs + times site hash ys
times-append site hash [] ys = omega arith
times-append site hash ((s, h) ∷ xs) ys = omega (arith, times-append site hash xs ys)

-- A key is handed over at most once, and only after it was marked as seen.
pub record Once (site hash : String) (e : Poller) : Type 0 where
  pub at_most : times site hash e.submitted ≤ 1
  pub unseen : is_seen site hash e.db.seen ≡ false → times site hash e.submitted ≡ 0

is_seen-last :
    (site hash : String) (xs : List (String × String))
    → is_seen site hash (xs ++ (site, hash) ∷ []) ≡ true
is_seen-last site hash [] = ground (arith, eq_iff site site, eq_iff hash hash)
is_seen-last site hash ((s, h) ∷ xs) = ground (arith, is_seen-last site hash xs)

pub mark_seen-seen :
    (site hash : String) (db : Db)
    → (mark_seen site hash db).1 ≡ true
    → is_seen site hash (mark_seen site hash db).0.seen ≡ true
unfolding mark_seen exec
mark_seen-seen site hash db h = ground (arith, is_seen-last site hash db.seen)

pub query-seen {ℓ} : {A : Type ℓ} (f : Db → A) (db : Db) → (query f db).0.seen ≡ db.seen
unfolding query
query-seen f db = ground arith

append_log-seen :
    (seed : ℕ) (level action : String) (db : Db)
    → (append_log seed level action db).0.seen ≡ db.seen
unfolding append_log exec
append_log-seen seed level action db = ground arith

-- What follows the mark leaves the marks alone, and hands the item over at most once.
pub record Grows (src : Source) (item : RssItem) (e e' : Poller) : Type 0 where
  pub same_seen : e'.db.seen ≡ e.db.seen
  pub grown :
      (e'.submitted ≡ e.submitted) ⊎ (e'.submitted ≡ e.submitted ++ (src.name, item.hash) ∷ [])

module _ (src : Source) (item : RssItem) where
  after_create-Grows :
      (o : Option ℕ) (e e' : Poller)
      → e'.db.seen ≡ e.db.seen
      → e'.submitted ≡ e.submitted
      → Grows src item e (after_create src item o e')
  unfolding after_create
  after_create-Grows none e e' h k = record { same_seen = h; grown = inl k }
  after_create-Grows (some id) e e' h k = record {
    same_seen = append_log-seen 0 "info" "discovered" e'.db ∙ h;
    grown = inr (ap (λ xs. xs ++ (src.name, item.hash) ∷ []) k);
  }

  after_lookup-Grows :
      (o : Option (Option Seed)) (e e' : Poller)
      → e'.db.seen ≡ e.db.seen
      → e'.submitted ≡ e.submitted
      → Grows src item e (after_lookup src item o e')
  unfolding after_lookup
  after_lookup-Grows none e e' h k = record { same_seen = h; grown = inl k }
  after_lookup-Grows (some (some old)) e e' h k = record { same_seen = h; grown = inl k }
  after_lookup-Grows (some none) e e' h k =
      after_create-Grows _ e _ (create_seed-seen (discovered src item) e'.db ∙ h) k

  pub after_mark-Grows : (e : Poller) → Grows src item e (after_mark src item true e)
  unfolding after_mark get_seed_by_hash
  after_mark-Grows e = after_lookup-Grows _ e _ (query-seen _ e.db) refl
