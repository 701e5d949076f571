-- ===== src/Bencode/Emit.antt =====
-- What `Encode` of backend/internal/bencode/bencode.go prints, as a function that is total, and when
-- it fails.
use auto_seed_relay.Prelude.{
  Bool, true, false, List, [], ◌∷◌, ◌++◌, none, some, ◌≡◌, refl, if◌then◌else◌, arith, ◌&&◌,
}
use auto_seed_relay.Bencode.Value.{
  Bytes, Value, Items, Fields, int, str, list, dict, other, no_items, item, no_fields, field,
}
use auto_seed_relay.Bencode.Decimal.{format_int}
use auto_seed_relay.Bencode.Encode.{
  Entry, encode, encode_items, encode_fields, print_int, print_str, print_entries, sort_entries,
  wrap,
}

-- No value of an unsupported type occurs.
abbrev mutual
  pub is_encodable : Value → Bool
  is_encodable (int n) = true
  is_encodable (str s) = true
  is_encodable (list xs) = encodable_items xs
  is_encodable (dict fs) = encodable_fields fs
  is_encodable other = false

  pub encodable_items : Items → Bool
  encodable_items no_items = true
  encodable_items (item v xs) = is_encodable v && encodable_items xs

  pub encodable_fields : Fields → Bool
  encodable_fields no_fields = true
  encodable_fields (field k v fs) = is_encodable v && encodable_fields fs

unfoldable mutual
  pub emit : Value → Bytes
  emit (int n) = print_int (format_int n)
  emit (str s) = print_str s
  emit (list xs) = wrap b'l' (emit_items xs)
  emit (dict fs) = wrap b'd' (print_entries (sort_entries (entries fs)))
  emit other = []

  pub emit_items : Items → Bytes
  emit_items no_items = []
  emit_items (item v xs) = emit v ++ emit_items xs

  pub entries : Fields → List Entry
  entries no_fields = []
  entries (field k v fs) = (k, emit v) ∷ entries fs

mutual
  unfolding encode emit

  encode_lem : (v : Value) → encode v ≡ (if is_encodable v then some (emit v) else none)
  encode_lem (int n) = refl
  encode_lem (str s) = refl
  encode_lem (list xs) = ground (arith, encode_items_lem xs)
  encode_lem (dict fs) = ground (arith, encode_fields_lem fs)
  encode_lem other = refl

  encode_items_lem :
      (xs : Items) → encode_items xs ≡ (if encodable_items xs then some (emit_items xs) else none)
  encode_items_lem no_items = refl
  encode_items_lem (item v xs) = ground (arith, encode_lem v, encode_items_lem xs)

  encode_fields_lem :
      (fs : Fields) → encode_fields fs ≡ (if encodable_fields fs then some (entries fs) else none)
  encode_fields_lem no_fields = refl
  encode_fields_lem (field k v fs) = ground (arith, encode_lem v, encode_fields_lem fs)

-- `Encode` fails exactly on a value in which a value of an unsupported type occurs; on any other it
-- returns the bytes that `emit` prints.
pub encode_cases : (v : Value) → encode v ≡ (if is_encodable v then some (emit v) else none)
encode_cases v = encode_lem v
