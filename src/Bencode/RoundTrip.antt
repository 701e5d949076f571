-- ===== src/Bencode/RoundTrip.antt =====
-- `Decode` after `Encode`, and `Encode` after `Decode` (backend/internal/bencode/bencode.go).
use auto_seed_relay.Prelude.{ℕ, ◌≡◌, refl, ◌∙◌, true, [], append-nil, some, arith}
use auto_seed_relay.Bencode.Value.{
  Bytes, Value, Items, Fields, int, str, list, dict, other, no_items, item, no_fields, field, ok,
}
use auto_seed_relay.Bencode.Encode.{encode}
use auto_seed_relay.Bencode.Emit.{
  is_encodable, encodable_items, encodable_fields, emit, encode_cases,
}
use auto_seed_relay.Bencode.Canonical.{canonical, FitsAt, FitsItems, FitsFields}
use auto_seed_relay.Bencode.Parse.{finish, enough, decode}
use auto_seed_relay.Bencode.Reads.{value-Reads}
use auto_seed_relay.Bencode.MapOrder.{encode-canonical}
use auto_seed_relay.Bencode.Decoded.{decode-FitsAt}

mutual
  FitsAt-is_encodable : (d : ℕ) (v : Value) → FitsAt d v → is_encodable v ≡ true
  FitsAt-is_encodable d (int n) h = refl
  FitsAt-is_encodable d (str s) h = refl
  FitsAt-is_encodable d (list xs) h = FitsItems-is_encodable _ xs h.1
  FitsAt-is_encodable d (dict fs) h = FitsFields-is_encodable _ fs h.1
  FitsAt-is_encodable d other h = absurd h

  FitsItems-is_encodable : (d : ℕ) (xs : Items) → FitsItems d xs → encodable_items xs ≡ true
  FitsItems-is_encodable d no_items h = refl
  FitsItems-is_encodable d (item v xs) h =
      rw (FitsAt-is_encodable d v h.0) (FitsItems-is_encodable d xs h.1)

  FitsFields-is_encodable : (d : ℕ) (fs : Fields) → FitsFields d fs → encodable_fields fs ≡ true
  FitsFields-is_encodable d no_fields h = refl
  FitsFields-is_encodable d (field k v fs) h =
      rw (FitsAt-is_encodable d v h.2) (FitsFields-is_encodable d fs h.3)

pub encode-FitsAt : (v : Value) → FitsAt 0 v → encode v ≡ some (emit v)
encode-FitsAt v h = encode_cases v ∙ rw (FitsAt-is_encodable 0 v h)

decode-emit : (v : Value) → FitsAt 0 v → decode (emit v) ≡ ok (canonical v)
unfolding decode finish
decode-emit v h =
    let whole = value-Reads v (enough (emit v)) 0 [] h (omega arith) in rw (rw append-nil at whole)

-- A value within the bounds of the format is encoded, and what it is encoded as decodes to the same
-- value, with the entries of each dict in the order of their keys.
pub decode-encode :
    (v : Value) → FitsAt 0 v → (b : Bytes) × (encode v ≡ some b) × (decode b ≡ ok (canonical v))
decode-encode v h = (emit v, encode-FitsAt v h, decode-emit v h)

-- Whatever text `Decode` accepts, its value is encoded again, and encoding it, decoding that and
-- encoding once more gives the same bytes: the bytes over which info_hash is taken are stable from the
-- first encoding on.
pub encode_stable :
    (s : Bytes) {v : Value}
    → decode s ≡ ok v
    → (b : Bytes) × (w : Value) × (encode v ≡ some b) × (decode b ≡ ok w) × (encode w ≡ some b)
encode_stable s {v} h =
    let fits = decode-FitsAt s h in
    (
      emit v,
      canonical v,
      encode-FitsAt v fits,
      decode-emit v fits,
      encode-canonical v ∙ encode-FitsAt v fits,
    )
