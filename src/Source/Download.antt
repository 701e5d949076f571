-- ===== src/Source/Download.antt =====
-- The download of a torrent file in the mode "direct" (backend/internal/source/download.go). What sites
-- answer to a request may depend on all requests so far. Whether `safeURL` admits a URL, whether a wait
-- is not cancelled and whether the file can be written are arguments, as is the host of the site.
use text.Mathlib.Text.{◌==◌ as str_eq}
use auto_seed_relay.Prelude.{
  ℕ, zero, suc, ◌*◌, Bool, true, false, not, List, [], ◌∷◌, ◌++◌, Option, none, some, String,
  if◌then◌else◌, leb, ◌==◌, ◌||◌, ◌⊎◌, inl, inr,
}

-- Durations are nanoseconds.
abbrev pub backoff_second : ℕ
backoff_second = 1_000_000_000

-- The loop of `DefaultBackoff`.
unfoldable pub doubled : ℕ → ℕ → ℕ
doubled zero d = d
doubled (suc n) d =
    let rest = doubled n (d * 2) in
    if leb (900 * backoff_second) (d * 2) then 900 * backoff_second else rest

unfoldable pub default_backoff : ℕ → ℕ
default_backoff attempt = doubled attempt (60 * backoff_second)

abbrev pub max_download_attempts : ℕ
max_download_attempts = 5

-- An answer: its status, its body, and whether its content type contains "x-bittorrent".
pub record Answer : Type 0 where
  pub status : ℕ
  pub content : List ℕ
  pub bittorrent : Bool

abbrev pub starts_dict : List ℕ → Bool
starts_dict [] = false
starts_dict (b ∷ bs) = b == 100

-- `isTorrentBody`
unfoldable pub is_torrent_body : Answer → Bool
is_torrent_body a =
    if not (a.status == 200) then false else if starts_dict a.content then true else a.bittorrent

pub data DownloadError : Type 0 where
  no_url unsafe_url request_failed not_torrent cancelled limited write_failed : DownloadError

-- A candidate is how it is made: with the passkey, as the link of the feed, or with the cookie.
pub data Candidate : Type 0 where
  with_passkey : String → String → String → Candidate
  enclosure : String → Candidate
  with_cookie : String → String → Candidate

pub record FeedItem : Type 0 where
  pub id : String
  pub enclosure_url : String

abbrev pub unless_empty : String → Candidate → List Candidate → List Candidate
unless_empty text c rest = if str_eq text "" then rest else c ∷ rest

-- `torrentURLs`, for the host of the item or of the feed.
unfoldable pub torrent_urls : String → String → String → FeedItem → List Candidate
torrent_urls site passkey cookie item =
    let by_cookie = unless_empty cookie (with_cookie site item.id) [] in
    let last = if str_eq item.id "" then [] else by_cookie in
    let middle = unless_empty item.enclosure_url (enclosure item.enclosure_url) last in
    if str_eq item.id ""
    then middle
    else unless_empty passkey (with_passkey site item.id passkey) middle

abbrev pub Downloaded : Type 0
Downloaded = List Candidate × (DownloadError ⊎ List ℕ)

module _ (server : List Candidate → Option Answer) (waited : List Candidate → Bool)
    (check_url : Candidate → Bool) (written : List ℕ → Bool) where
  unfoldable pub after_request : Option Answer → List Candidate → Downloaded → Downloaded
  after_request none sent again = (sent, inl request_failed)
  after_request (some a) sent again =
      if is_torrent_body a
      then (sent, inr a.content)
      else if (a.status == 403) || (a.status == 503)
      then if waited sent then again else (sent, inl cancelled)
      else (sent, inl not_torrent)

  -- The loop of `downloadRaw`, for a number of attempts.
  unfoldable pub download_attempts : ℕ → Candidate → List Candidate → Downloaded
  download_attempts zero u sent = (sent, inl limited)
  download_attempts (suc n) u sent =
      let sent' = sent ++ u ∷ [] in after_request (server sent') sent' (download_attempts n u sent')

  unfoldable pub download_raw : Candidate → List Candidate → Downloaded
  download_raw = download_attempts max_download_attempts

  abbrev pub write_file : List Candidate → List ℕ → Downloaded
  write_file sent content =
      if written content then (sent, inr content) else (sent, inl write_failed)

  -- What follows an attempt at a candidate: the next one after an error, which is remembered, or the file.
  abbrev pub next_or_write : (DownloadError → List Candidate → Downloaded) → Downloaded → Downloaded
  next_or_write next (sent, inl e) = next e sent
  next_or_write next (sent, inr content) = write_file sent content

  -- The loop over the candidates, with the last error; a file that cannot be written ends it.
  unfoldable pub download_each : List Candidate → DownloadError → List Candidate → Downloaded
  download_each [] last sent = (sent, inl last)
  download_each (u ∷ us) last sent =
      let tried = next_or_write (download_each us) (download_raw u sent) in
      let skipped = download_each us unsafe_url sent in if check_url u then tried else skipped

  -- `DownloadTorrent` in the mode "direct".
  unfoldable pub download_torrent : List Candidate → List Candidate → Downloaded
  download_torrent [] sent = (sent, inl no_url)
  download_torrent (u ∷ us) sent = download_each (u ∷ us) not_torrent sent
