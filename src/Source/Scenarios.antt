-- ===== src/Source/Scenarios.antt =====
-- A download with one refusal, and an address that is not dialed (backend/internal/source/download.go).
use auto_seed_relay.Prelude.{
  ℕ, ◌≡◌, ◌<◌, ◌+◌, ◌*◌, ◌^◌, refl, Bool, true, false, List, [], ◌∷◌, Option, none, some, All, any,
  ◌≢◌, String,
}
use Prim.Native.Nat.{min}
use auto_seed_relay.Source.Address.{Ip, v4, v6, is_unsafe_ip, safe_dial}
use auto_seed_relay.Source.Dial.{number, in_block, unsafe_blocks, dial_safe}
use auto_seed_relay.Source.Download.{
  Answer, Candidate, enclosure, with_cookie, backoff_second, default_backoff, download_torrent,
}
use auto_seed_relay.Source.Pending.{Torrent, poll_pending}
use auto_seed_relay.Source.Foreign.{in_snapshots, registry_after, Finds, poll_excludes}
use auto_seed_relay.Source.Chosen.{Ends, download_takes_first}

abbrev resolved : Option (List Ip)
resolved = some (v4 93 184 216 34 ∷ v4 10 0 0 1 ∷ [])

abbrev connects : Ip → Bool
connects ip = true

dial_safe_example :
    (All (λ ip. is_unsafe_ip ip ≡ false) (safe_dial connects resolved).0
      × ((ip : Ip)
          → (safe_dial connects resolved).1 ≡ some ip
          → (is_unsafe_ip ip ≡ false) × (connects ip ≡ true)))
    × ((ips : List Ip)
        → resolved ≡ some ips
        → any is_unsafe_ip ips ≡ true
        → (safe_dial connects resolved).0 ≡ [])
    × ((a b c d : ℕ)
        → a < 256
        → b < 256
        → c < 256
        → d < 256
        → (is_unsafe_ip (v4 a b c d) ≡ any (in_block (number a b c d)) unsafe_blocks)
          × (is_unsafe_ip (v6 0 0 0 0 0 65_535 (a * 256 + b) (c * 256 + d))
              ≡ is_unsafe_ip (v4 a b c d)))
dial_safe_example = dial_safe connects resolved

-- The blocks that Internet standards reserve for future use are not among the unsafe ones.
reserved_passes : is_unsafe_ip (v4 240 0 0 1) ≡ false
unfolding is_unsafe_ip
reserved_passes = refl

-- The first request is refused, the backoff_second one is served.
abbrev site : List Candidate → Option Answer
site [] = none
site (u ∷ []) = some (record { status = 503; content = []; bittorrent = false })
site (u ∷ w ∷ us) = some (record { status = 200; content = 100 ∷ 101 ∷ []; bittorrent = false })

abbrev waits : List Candidate → Bool
waits sent = true

abbrev admits : Candidate → Bool
admits u = true

abbrev writes : List ℕ → Bool
writes content = true

abbrev candidates : List Candidate
candidates = enclosure "https://tracker/dl" ∷ with_cookie "https://tracker" "7" ∷ []

download_takes_first_example :
    Ends site waits admits writes candidates []
      (download_torrent site waits admits writes candidates [])
    × ((attempt : ℕ)
        → default_backoff attempt ≡ min (60 * backoff_second * 2 ^ attempt) (900 * backoff_second))
download_takes_first_example = download_takes_first site waits admits writes candidates []

-- The download of "aa" polls after another one, whose snapshot has "aa" already.
abbrev listed : List Torrent
listed = record { hash = "aa"; category = "relay-pending" } ∷ []

abbrev snapshots : List (List String)
snapshots = [] ∷ ("aa" ∷ []) ∷ []

poll_excludes_example :
    Finds
      (λ s. s)
      []
      snapshots
      listed
      (poll_pending (λ s. s) [] (registry_after (λ s. s) snapshots []) listed)
    × ((h : String)
        → in_snapshots (λ s. s) h snapshots ≡ true
        → poll_pending (λ s. s) [] (registry_after (λ s. s) snapshots []) listed ≢ some h)
poll_excludes_example = poll_excludes (λ s. s) [] snapshots listed
