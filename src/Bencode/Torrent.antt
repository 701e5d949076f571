-- ===== src/Bencode/Torrent.antt =====
-- `InfoHash`, `LoadTorrent` and `WriteTorrent` of backend/internal/bencode/bencode.go. SHA-1 is a
-- function on bytes, an argument; what the file system answers is an argument too.
use auto_seed_relay.Prelude.{
  ℕ, ◌+◌, ◌-◌, ◌*◌, ◌/◌, ◌%◌, ◌^◌, ◌≤◌, ◌≡◌, refl, [], ◌∷◌, Option, none, some, arith, length, ltb,
  if◌then◌else◌, Bool-cases, inl, inr, ap, subst,
}
use auto_seed_relay.Bencode.Value.{
  Bytes, Value, Fields, int, dict, Result, ok, err, out_of_fuel, ◌>>=◌, get, codes, missing_info,
  info_not_dict, cannot_encode, too_large, file_error, not_a_torrent,
}
use auto_seed_relay.Bencode.Encode.{encode}
use auto_seed_relay.Bencode.Parse.{decode}
use auto_seed_relay.Bencode.MapOrder.{SameMap, encode_map_order}

hex_digit : ℕ → ℕ
hex_digit n = if ltb n 10 then b'0' + n else b'a' + n - 10

-- `hex.EncodeToString`
unfoldable pub hex : Bytes → Bytes
unfolding hex_digit
hex [] = []
hex (b ∷ s) = hex_digit (b / 16) ∷ hex_digit (b % 16) ∷ hex s

abbrev pub info_key : Bytes
info_key = codes "info"

encoded : Value → Result Bytes
encoded v = elim (encode v) [ none ↦ err cannot_encode | some b ↦ ok b ]

info_of : Option Value → Result Value
info_of none = err missing_info
info_of (some (dict fs)) = ok (dict fs)
info_of (some _) = err info_not_dict

-- `InfoHash`
unfoldable pub info_hash : (Bytes → Bytes) → Fields → Result Bytes
unfolding encoded info_of
info_hash sha1 torrent =
    info_of (get info_key torrent) >>= λ info. encoded info >>= λ enc. ok (hex (sha1 enc))

abbrev pub max_torrent_size : ℕ
max_torrent_size = 64 * 2 ^ 20

require : Option Value → Fields → Result Fields
require none d = err not_a_torrent
require (some info) d = ok d

torrent_of : Value → Result Fields
unfolding require
torrent_of (dict d) = require (get info_key d) d
torrent_of _ = err not_a_torrent

load_raw : Option Bytes → Result Fields
unfolding torrent_of
load_raw none = err file_error
load_raw (some raw) =
    if ltb max_torrent_size (length raw) then err too_large else decode raw >>= torrent_of

-- `LoadTorrent`: the size that Stat reports, if it succeeds, and the bytes that ReadFile returns, if
-- it does.
unfoldable pub load_torrent : Option ℕ → Option Bytes → Result Fields
unfolding load_raw
load_torrent none raw = err file_error
load_torrent (some size) raw = if ltb max_torrent_size size then err too_large else load_raw raw

-- `WriteTorrent`: the bytes that are handed to the file system.
unfoldable pub write_torrent : Fields → Result Bytes
unfolding encoded
write_torrent torrent = encoded (dict torrent)

abbrev pub HasInfo : Fields → Type 0
HasInfo d = (v : Value) × (get info_key d ≡ some v)

require-ok :
    (o : Option Value) (fs d : Fields)
    → require o fs ≡ ok d
    → ((v : Value) × (o ≡ some v)) × (fs ≡ d)
unfolding require
require-ok none fs d h = cc
require-ok (some v) fs d h = ((v, refl), cc)

torrent_of-HasInfo : (v : Value) (d : Fields) → torrent_of v ≡ ok d → (v ≡ dict d) × HasInfo d
unfolding torrent_of
torrent_of-HasInfo (dict fs) d h =
    let (info, e) = require-ok (get info_key fs) fs d h in (ap dict e, subst HasInfo e info)
torrent_of-HasInfo (int n) d h = cc
torrent_of-HasInfo _ d h = cc

decoded-HasInfo :
    (r : Result Value) (d : Fields) → (r >>= torrent_of) ≡ ok d → (r ≡ ok (dict d)) × HasInfo d
decoded-HasInfo (ok v) d h = let (e, info) = torrent_of-HasInfo v d h in (ap ok e, info)
decoded-HasInfo (err x) d h = cc
decoded-HasInfo out_of_fuel d h = cc

-- Every torrent that is loaded was small enough both when its size was asked and when it was read, and
-- is the decoding of what was read, with an info entry.
load_torrent_sound :
    (n : ℕ) (s : Bytes) (d : Fields)
    → load_torrent (some n) (some s) ≡ ok d
    → (n ≤ max_torrent_size) × (length s ≤ max_torrent_size) × (decode s ≡ ok (dict d)) × HasInfo d
unfolding load_torrent
load_torrent_sound n s d h = elim (Bool-cases (ltb max_torrent_size n)) [
  | inl large ↦ absurd (ground arith)
  | inr small ↦ elim (Bool-cases (ltb max_torrent_size (length s))) [
    | inl grown ↦ absurd (ground arith)
    | inr fits ↦
        let (e, info) = decoded-HasInfo (decode s) d (rw (small, fits) at h) in
        (ground arith, ground arith, e, info)
  ]
]

-- The hash of a torrent does not depend on the order in which its info dict is walked.
info_hash_order :
    (sha1 : Bytes → Bytes) {fs gs : Fields} (t u : Fields)
    → get info_key t ≡ some (dict fs)
    → get info_key u ≡ some (dict gs)
    → SameMap fs gs
    → info_hash sha1 t ≡ info_hash sha1 u
unfolding info_hash
info_hash_order sha1 t u ht hu s = rw (ht, hu) (rw (encode_map_order s, encoded))
