-- ===== src/Bencode/Value.antt =====
-- Values, bytes and errors of backend/internal/bencode/bencode.go.
use auto_seed_relay.Prelude.{
  ℕ, Bool, true, false, String, List, [], ◌∷◌, Option, none, some, ltb, ◌==◌, if◌then◌else◌, ◌&&◌,
}
use auto_seed_relay.Prelude.Int.{ℤ}
use Prim.Native.Char.{code}

abbrev pub Bytes : Type 0
Bytes = List ℕ

-- The code points of a literal; its bytes, as every literal here is ASCII.
abbrev pub codes : String → Bytes
codes String.[] = []
codes (String.◌∷◌ c s) = code c ∷ codes s

-- The values that `Encode` takes: int, int64 and int32 are `int`; string and []byte are `str`; a
-- value of any other Go type is `other`. A `map[string]any` is the list of its entries.
mutual
  pub data Value : Type 0 where
    int : ℤ → Value
    str : Bytes → Value
    list : Items → Value
    dict : Fields → Value
    other : Value

  pub data Items : Type 0 where
    no_items : Items
    item : Value → Items → Items

  pub data Fields : Type 0 where
    no_fields : Fields
    field : Bytes → Value → Fields → Fields

-- The messages of BencodeError.
pub data Error : Type 0 where
  nesting_too_deep unexpected_end unterminated_integer bad_integer unterminated_list : Error
  key_not_bytes unterminated_dict missing_colon bad_length negative_length overruns_data : Error
  unknown_marker : ℕ → Error
  trailing_data cannot_encode missing_info info_not_dict not_a_torrent too_large : Error
  file_error : Error

-- `out_of_fuel` has no counterpart in the program.
pub data Result {ℓ} (A : Type ℓ) : Type ℓ where
  ok : A → Result A
  err : Error → Result A
  out_of_fuel : Result A

infixl 5 ◌>>=◌
abbrev pub ◌>>=◌ {ℓ κ} : {A : Type ℓ} {B : Type κ} → Result A → (A → Result B) → Result B
ok a >>= f = f a
err e >>= f = err e
out_of_fuel >>= f = out_of_fuel

-- Equality and byte-wise order of strings, as `==` and `sort.Strings` take them.
unfoldable pub bytes_eq : Bytes → Bytes → Bool
bytes_eq [] [] = true
bytes_eq [] (b ∷ t) = false
bytes_eq (a ∷ s) [] = false
bytes_eq (a ∷ s) (b ∷ t) = (a == b) && bytes_eq s t

unfoldable pub bytes_lt : Bytes → Bytes → Bool
bytes_lt [] [] = false
bytes_lt [] (b ∷ t) = true
bytes_lt (a ∷ s) [] = false
bytes_lt (a ∷ s) (b ∷ t) = if ltb a b then true else if ltb b a then false else bytes_lt s t

-- `d[k] = v`
unfoldable pub put : Bytes → Value → Fields → Fields
put k v no_fields = field k v no_fields
put k v (field j w fs) = if bytes_eq j k then field k v fs else field j w (put k v fs)

-- `v, ok := d[k]`
unfoldable pub get : Bytes → Fields → Option Value
get k no_fields = none
get k (field j w fs) = if bytes_eq j k then some w else get k fs
