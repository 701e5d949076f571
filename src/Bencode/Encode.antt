-- ===== src/Bencode/Encode.antt =====
-- `Encode` of backend/internal/bencode/bencode.go. The values of a dict are encoded before its keys
-- are sorted, which gives the same bytes and the same error.
use auto_seed_relay.Prelude.{ℕ, List, [], ◌∷◌, ◌++◌, Option, none, some, length, if◌then◌else◌}
use auto_seed_relay.Bencode.Value.{
  Bytes, Value, Items, Fields, int, str, list, dict, other, no_items, item, no_fields, field,
  bytes_lt,
}
use auto_seed_relay.Bencode.Decimal.{format_int, format_nat}

infixl 5 ◌>>=◌
abbrev pub ◌>>=◌ {ℓ κ} : {A : Type ℓ} {B : Type κ} → Option A → (A → Option B) → Option B
none >>= f = none
some a >>= f = f a

-- A key with its encoded value.
abbrev pub Entry : Type 0
Entry = Bytes × Bytes

-- `sort.Strings` on the keys: a stable insertion.
unfoldable pub insert_entry : Entry → List Entry → List Entry
insert_entry (k, b) [] = (k, b) ∷ []
insert_entry (k, b) ((j, c) ∷ es) =
    if bytes_lt j k then (j, c) ∷ insert_entry (k, b) es else (k, b) ∷ (j, c) ∷ es

unfoldable pub sort_entries : List Entry → List Entry
unfolding insert_entry
sort_entries [] = []
sort_entries (e ∷ es) = insert_entry e (sort_entries es)

-- `strconv.Itoa(len(s)) + ":" + s`
unfoldable pub print_str : Bytes → Bytes
print_str s = format_nat (length s) ++ b':' ∷ s

unfoldable pub print_int : Bytes → Bytes
print_int digits = b'i' ∷ (digits ++ b'e' ∷ [])

unfoldable pub print_entries : List Entry → Bytes
unfolding print_str
print_entries [] = []
print_entries ((k, b) ∷ es) = print_str k ++ (b ++ print_entries es)

abbrev pub wrap : ℕ → Bytes → Bytes
wrap c body = c ∷ (body ++ b'e' ∷ [])

-- `none` is the error of the `default` case, which names the type that is not supported.
unfoldable mutual
  pub encode : Value → Option Bytes
  encode (int n) = some (print_int (format_int n))
  encode (str s) = some (print_str s)
  encode (list xs) = encode_items xs >>= λ body. some (wrap b'l' body)
  encode (dict fs) = encode_fields fs >>= λ es. some (wrap b'd' (print_entries (sort_entries es)))
  encode other = none

  pub encode_items : Items → Option Bytes
  encode_items no_items = some []
  encode_items (item v xs) = encode v >>= λ b. encode_items xs >>= λ bs. some (b ++ bs)

  pub encode_fields : Fields → Option (List Entry)
  encode_fields no_fields = some []
  encode_fields (field k v fs) = encode v >>= λ b. encode_fields fs >>= λ es. some ((k, b) ∷ es)
