-- ===== src/Bencode/Scenarios.antt =====
-- Values and texts of the format of backend/internal/bencode/bencode.go, and what becomes of them.
use auto_seed_relay.Prelude.{ℕ, ◌≡◌, ◌≢◌, refl, ap, some, [], ◌∷◌, arith}
use auto_seed_relay.Prelude.Int.{negsuc}
use auto_seed_relay.Bencode.Value.{
  Bytes, Value, Fields, int, str, list, dict, no_items, item, no_fields, field, ok, out_of_fuel,
  put, get, bytes_lt, bytes_eq, codes,
}
use auto_seed_relay.Bencode.Decimal.{format_int, format_nat, parse_int}
use auto_seed_relay.Bencode.Encode.{
  encode, encode_items, encode_fields, sort_entries, print_entries, print_int,
}
use auto_seed_relay.Bencode.Canonical.{canonical, FitsAt}
use auto_seed_relay.Bencode.MapOrder.{SameMap, exchange}
use auto_seed_relay.Bencode.Parse.{
  decode, parse, parse_fields, parse_string, parse_str_tail, str_of, cut, split_at, key_of, finish,
}
use auto_seed_relay.Bencode.Total.{decode_total}
use auto_seed_relay.Bencode.Decoded.{decode-FitsAt}
use auto_seed_relay.Bencode.RoundTrip.{decode-encode, encode_stable}
use auto_seed_relay.Bencode.Torrent.{load_torrent, info_key}

abbrev sample_fields : Fields
sample_fields =
    field (codes "b") (int (negsuc 6))
      (field (codes "a") (list (item (str (codes "xy")) no_items)) no_fields)

abbrev sample : Value
sample = dict sample_fields

sample_bytes : encode sample ≡ some (codes "d1:al2:xye1:bi-7ee")
unfolding encode encode_items encode_fields sort_entries print_entries print_int format_int
    format_nat bytes_lt
sample_bytes = refl

decode_total_example : decode (codes "d1:al2:xye1:bi-7ee") ≢ out_of_fuel
decode_total_example = decode_total (codes "d1:al2:xye1:bi-7ee")

abbrev first : Bytes → ℕ
first [] = 0
first (b ∷ s) = b

keys_differ : codes "b" ≢ codes "a"
keys_differ e = let d = ap first e in omega arith

abbrev swapped : Fields
swapped =
    field (codes "a") (list (item (str (codes "xy")) no_items))
      (field (codes "b") (int (negsuc 6)) no_fields)

swapped-SameMap : SameMap sample_fields swapped
swapped-SameMap = exchange keys_differ

sample-FitsAt : FitsAt 0 sample
sample-FitsAt = ground (arith, keys_differ)

decode-encode_example : (b : Bytes) × (encode sample ≡ some b) × (decode b ≡ ok (canonical sample))
decode-encode_example = decode-encode sample sample-FitsAt

-- An info dict with an empty name, as it stands in a file.
abbrev raw_torrent : Bytes
raw_torrent = codes "d4:infod4:name0:ee"

abbrev torrent : Fields
torrent = field info_key (dict (field (codes "name") (str []) no_fields)) no_fields

decoded_torrent : decode raw_torrent ≡ ok (dict torrent)
unfolding decode parse parse_fields parse_string parse_str_tail str_of cut split_at key_of finish
    put bytes_eq parse_int
decoded_torrent = refl

decode-FitsAt_example : FitsAt 0 (dict torrent)
decode-FitsAt_example = decode-FitsAt raw_torrent decoded_torrent

encode_stable_example :
    (b : Bytes) × (w : Value) × (encode (dict torrent) ≡ some b)
    × (decode b ≡ ok w)
    × (encode w ≡ some b)
encode_stable_example = encode_stable raw_torrent decoded_torrent

loaded : load_torrent (some 18) (some raw_torrent) ≡ ok torrent
unfolding load_torrent get bytes_eq
loaded = rw decoded_torrent refl

abbrev holding : Fields → Fields
holding info = field info_key (dict info) no_fields

holds_info : (fs : Fields) → get info_key (holding fs) ≡ some (dict fs)
unfolding get bytes_eq
holds_info fs = refl

abbrev no_hash : Bytes → Bytes
no_hash s = s
