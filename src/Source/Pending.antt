-- ===== src/Source/Pending.antt =====
-- The registry of torrents that were pending before a download by way of qBittorrent (`registerPendingBefore`
-- and `isForeignPending` of backend/internal/source/download.go), and the poll of `DownloadViaQB` for the
-- torrent that it has added. The lower case of a hash is an argument.
use text.Mathlib.Text.{◌==◌ as str_eq}
use auto_seed_relay.Prelude.{
  Bool, not, List, [], ◌∷◌, Option, none, some, String, if◌then◌else◌, ◌&&◌,
}
use auto_seed_relay.Store.Rows.{mem_str}

-- A torrent as it is listed.
pub record Torrent : Type 0 where
  pub hash : String
  pub category : String

-- The hashes that a snapshot has.
unfoldable pub pending_hashes : List Torrent → List String
pending_hashes [] = []
pending_hashes (t ∷ ts) =
    let rest = pending_hashes ts in
    if str_eq t.category "relay-pending" then t.hash ∷ rest else rest

-- The hash of a later torrent, or this one if it is taken.
abbrev pub later_or : Option String → Bool → String → Option String
later_or (some g) taken h = some g
later_or none taken h = if taken then some h else none

module _ (lower : String → String) where
  -- `registerPendingBefore`
  unfoldable pub register_pending_before : List String → List String → List String
  register_pending_before [] registry = registry
  register_pending_before (h ∷ hs) registry =
      let added = lower h ∷ registry in
      register_pending_before hs (if str_eq h "" then registry else added)

  -- `isForeignPending`
  unfoldable pub is_foreign_pending : String → List String → Bool
  is_foreign_pending hash registry = mem_str (lower hash) registry

  unfoldable pub is_candidate : List String → List String → Torrent → Bool
  is_candidate before registry t =
      str_eq t.category "relay-pending"
      && not (str_eq t.hash "")
      && not (mem_str t.hash before)
      && not (is_foreign_pending t.hash registry)

  -- One poll: the last candidate.
  unfoldable pub poll_pending : List String → List String → List Torrent → Option String
  poll_pending before registry [] = none
  poll_pending before registry (t ∷ ts) =
      later_or (poll_pending before registry ts) (is_candidate before registry t) t.hash
