-- ===== src/Bencode/Parse.antt =====
-- `parse` and `Decode` of backend/internal/bencode/bencode.go. A position `idx` is the list of the
-- bytes from there on, so that the index just past a value is what is left behind it.
use auto_seed_relay.Prelude.{
  ℕ, zero, suc, ◌+◌, ◌*◌, [], ◌∷◌, Option, none, some, length, ltb, ◌==◌, if◌then◌else◌,
}
use auto_seed_relay.Prelude.Int.{ℤ, pos, negsuc}
use auto_seed_relay.Bencode.Value.{
  Bytes, Value, Items, Fields, int, str, list, dict, no_items, item, no_fields, nesting_too_deep,
  unexpected_end, unterminated_integer, bad_integer, unterminated_list, key_not_bytes,
  unterminated_dict, missing_colon, bad_length, negative_length, overruns_data, unknown_marker,
  trailing_data, Result, ok, err, out_of_fuel, ◌>>=◌, put,
}
use auto_seed_relay.Bencode.Decimal.{is_digit, parse_int}

abbrev pub max_depth : ℕ
max_depth = 256

abbrev pub later : ℕ → Option (Bytes × Bytes) → Option (Bytes × Bytes)
later b none = none
later b (some (p, q)) = some (b ∷ p, q)

-- `bytes.IndexByte(data, c)` with the slices before and behind the byte found.
unfoldable pub cut : ℕ → Bytes → Option (Bytes × Bytes)
cut c [] = none
cut c (b ∷ s) = if b == c then some ([], s) else later b (cut c s)

-- `data[start:end]` and `data[end:]` for a length that was checked.
unfoldable pub split_at : ℕ → Bytes → Bytes × Bytes
split_at zero s = ([], s)
split_at (suc n) [] = ([], [])
split_at (suc n) (b ∷ s) = let (p, q) = split_at n s in (b ∷ p, q)

abbrev pub Parsed : Type 0 → Type 0
Parsed A = Result (A × Bytes)

unfoldable pub int_of : Option ℤ → Bytes → Parsed Value
int_of none rest = err bad_integer
int_of (some n) rest = ok (int n, rest)

unfoldable pub parse_int_tail : Option (Bytes × Bytes) → Parsed Value
parse_int_tail none = err unterminated_integer
parse_int_tail (some (s, rest)) = int_of (parse_int s) rest

-- The case `c == 'i'`, behind the marker.
unfoldable pub parse_integer : Bytes → Parsed Value
unfolding int_of parse_int_tail
parse_integer s = parse_int_tail (cut b'e' s)

unfoldable pub str_of : Option ℤ → Bytes → Parsed Value
str_of none rest = err bad_length
str_of (some (negsuc n)) rest = err negative_length
str_of (some (pos n)) rest =
    if ltb (length rest) n
    then err overruns_data
    else (let (s, behind) = split_at n rest in ok (str s, behind))

unfoldable pub parse_str_tail : Option (Bytes × Bytes) → Parsed Value
parse_str_tail none = err missing_colon
parse_str_tail (some (s, rest)) = str_of (parse_int s) rest

-- The case of a digit, from the digit on.
unfoldable pub parse_string : Bytes → Parsed Value
unfolding str_of parse_str_tail
parse_string s = parse_str_tail (cut b':' s)

-- `key, ok := keyVal.(string)`
unfoldable pub key_of : Value → Result Bytes
key_of (str s) = ok s
key_of _ = err key_not_bytes

abbrev pub list_of : Items × Bytes → Parsed Value
list_of (xs, rest) = ok (list xs, rest)

abbrev pub dict_of : Fields × Bytes → Parsed Value
dict_of (fs, rest) = ok (dict fs, rest)

abbrev pub cons_item : Value → Items × Bytes → Parsed Items
cons_item v (xs, rest) = ok (item v xs, rest)

-- The `switch` on the marker `c`, with the two loops as arguments.
abbrev pub parse_marker :
    (Bytes → Parsed Items) → (Bytes → Parsed Fields) → ℕ → Bytes → Parsed Value
parse_marker items fields c s =
    if c == b'i'
    then parse_integer s
    else if c == b'l'
    then items s >>= list_of
    else if c == b'd'
    then fields s >>= dict_of
    else if is_digit c
    then parse_string (c ∷ s)
    else err (unknown_marker c)

-- `parse`, and the loops of its list and dict cases. Each call takes a unit of fuel; a dict's
-- entries so far are the last argument of its loop.
unfoldable mutual
  pub parse : ℕ → ℕ → Bytes → Parsed Value
  parse zero depth s = out_of_fuel
  parse (suc f) depth [] = if ltb max_depth depth then err nesting_too_deep else err unexpected_end
  parse (suc f) depth (c ∷ s) =
      let v =
        parse_marker (parse_items f (suc depth)) (λ r. parse_fields f (suc depth) r no_fields) c
          s in
      if ltb max_depth depth then err nesting_too_deep else v

  pub parse_items : ℕ → ℕ → Bytes → Parsed Items
  parse_items zero depth s = out_of_fuel
  parse_items (suc f) depth [] = err unterminated_list
  parse_items (suc f) depth (c ∷ s) =
      let more = parse f depth (c ∷ s) >>= λ (v, rest). parse_items f depth rest >>= cons_item v in
      if c == b'e' then ok (no_items, s) else more

  pub parse_fields : ℕ → ℕ → Bytes → Fields → Parsed Fields
  parse_fields zero depth s d = out_of_fuel
  parse_fields (suc f) depth [] d = err unterminated_dict
  parse_fields (suc f) depth (c ∷ s) d =
      let more = parse f depth (c ∷ s) >>= λ (k, rest). key_of k >>= λ key.
      parse f depth rest >>= λ (v, rest'). parse_fields f depth rest' (put key v d) in
      if c == b'e' then ok (d, s) else more

unfoldable pub finish : Value × Bytes → Result Value
finish (v, []) = ok v
finish (v, (_ ∷ _)) = err trailing_data

-- The fuel that every text is read with.
abbrev pub enough : Bytes → ℕ
enough s = 2 * length s + 2

unfoldable pub decode : Bytes → Result Value
unfolding finish
decode s = parse (enough s) 0 s >>= finish
