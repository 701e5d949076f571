-- ===== src/Bencode/Decoded.antt =====
-- The bounds of what `Decode` of backend/internal/bencode/bencode.go returns.
use auto_seed_relay.Prelude.{
  ℕ, zero, suc, ◌≤◌, ◌^◌, ◌≡◌, ◌≢◌, refl, Bool, true, false, [], ◌∷◌, Option, none, some, arith,
  length, ltb, ◌==◌, if◌then◌else◌, Bool-cases, inl, inr, subst,
}
use auto_seed_relay.Prelude.Int.{ℤ, pos, negsuc, IsInt64}
use auto_seed_relay.Bencode.Value.{
  Bytes, Value, Items, Fields, str, no_fields, field, ok, err, out_of_fuel, ◌>>=◌, put, bytes_eq,
}
use auto_seed_relay.Bencode.Order.{bytes_eq-eq, bytes_eq_self}
use auto_seed_relay.Bencode.Decimal.{parse_int, signed, scan_some, is_digit}
use auto_seed_relay.Bencode.Parse.{
  Parsed, split_at, int_of, str_of, parse_int_tail, parse_str_tail, parse_integer, parse_string,
  key_of, list_of, dict_of, parse_marker, parse, parse_items, parse_fields, finish, enough, decode,
}
use auto_seed_relay.Bencode.Canonical.{Fresh, HasDistinctKeys, FitsAt, FitsItems, FitsFields}

-- A result satisfies `P`; an error is left out.
abbrev Yields {ℓ} : {A : Type 0} → (A → Type ℓ) → Parsed A → Type ℓ
Yields P (ok p) = P p.0
Yields P (err e) = Unit
Yields P out_of_fuel = Unit

Yields-bind :
    {A B : Type 0} (P : A → Type 0) (Q : B → Type 0) (r : Parsed A) (g : A × Bytes → Parsed B)
    → Yields P r
    → ((a : A) (rest : Bytes) → P a → Yields Q (g (a, rest)))
    → Yields Q (r >>= g)
Yields-bind P Q (ok (a, rest)) g h k = k a rest h
Yields-bind P Q (err e) g h k = tt
Yields-bind P Q out_of_fuel g h k = tt

Yields-if :
    {A : Type 0} (P : A → Type 0) (b : Bool) (x y : Parsed A)
    → (b ≡ true → Yields P x)
    → (b ≡ false → Yields P y)
    → Yields P (if b then x else y)
Yields-if P true x y h k = h refl
Yields-if P false x y h k = k refl

-- Where the range of a 64-bit result is checked.
abbrev InRange : Option ℤ → Type 0
InRange none = Unit
InRange (some z) = IsInt64 z

signed-InRange : (b : Bool) (o : Option ℕ) → InRange (signed b o)
unfolding signed
signed-InRange true none = tt
signed-InRange false none = tt
signed-InRange false (some n) = elim (Bool-cases (ltb n (2 ^ 63))) [
  | inl small ↦ rw small (ground arith, omega arith)
  | inr big ↦ rw big tt
]
signed-InRange true (some zero) = omega arith
signed-InRange true (some (suc n)) = elim (Bool-cases (ltb n (2 ^ 63))) [
  | inl small ↦ rw small (omega arith, ground arith)
  | inr big ↦ rw big tt
]

InRange-if : (b : Bool) (x y : Option ℤ) → InRange x → InRange y → InRange (if b then x else y)
InRange-if true x y h k = h
InRange-if false x y h k = k

parse_int-InRange : (s : Bytes) → InRange (parse_int s)
unfolding parse_int
parse_int-InRange [] = tt
parse_int-InRange (c ∷ s) = InRange-if (c == b'+') _ _ (signed-InRange false (scan_some s)) (
    InRange-if (c == b'-') _ _ (signed-InRange true (scan_some s))
      (signed-InRange false (scan_some (c ∷ s))))

-- A scalar at any level down to the last.
abbrev FitsScalar : Value → Type 0
FitsScalar v = (d : ℕ) → d ≤ 256 → FitsAt d v

int_of-Yields : (z : Option ℤ) (rest : Bytes) → InRange z → Yields FitsScalar (int_of z rest)
unfolding int_of
int_of-Yields none rest h = tt
int_of-Yields (some z) rest h = λ d k. (k, h)

int_tail-Yields : (o : Option (Bytes × Bytes)) → Yields FitsScalar (parse_int_tail o)
unfolding parse_int_tail
int_tail-Yields none = tt
int_tail-Yields (some (s, rest)) = int_of-Yields (parse_int s) rest (parse_int-InRange s)

length-split_at_le : (n : ℕ) (s : Bytes) → length (split_at n s).0 ≤ n
unfolding split_at
length-split_at_le zero s = omega arith
length-split_at_le (suc n) [] = omega arith
length-split_at_le (suc n) (b ∷ s) = omega (arith, length-split_at_le n s)

str_of-Yields : (z : Option ℤ) (rest : Bytes) → InRange z → Yields FitsScalar (str_of z rest)
unfolding str_of
str_of-Yields none rest h = tt
str_of-Yields (some (negsuc n)) rest h = tt
str_of-Yields (some (pos n)) rest h =
    Yields-if FitsScalar (ltb (length rest) n) _ _ (λ _. tt)
      (λ _ d k. (k, omega (arith, length-split_at_le n rest)))

str_tail-Yields : (o : Option (Bytes × Bytes)) → Yields FitsScalar (parse_str_tail o)
unfolding parse_str_tail
str_tail-Yields none = tt
str_tail-Yields (some (s, rest)) = str_of-Yields (parse_int s) rest (parse_int-InRange s)

abbrev FitsDict : ℕ → Fields → Type 0
FitsDict d fs = FitsFields d fs × HasDistinctKeys fs

FitsFields-put :
    (d : ℕ) (k : Bytes) (v : Value) (m : Fields)
    → FitsAt d (str k)
    → FitsAt d v
    → FitsFields d m
    → FitsFields d (put k v m)
unfolding put
FitsFields-put d k v no_fields hk hv h = (hk.0, hk.1, hv, tt)
FitsFields-put d k v (field j w m) hk hv h = elim (Bool-cases (bytes_eq j k)) [
  | inl here ↦ rw here (hk.0, hk.1, hv, h.3)
  | inr there ↦ rw there (h.0, h.1, h.2, FitsFields-put d k v m hk hv h.3)
]

Fresh-put : (i k : Bytes) (v : Value) (m : Fields) → Fresh i m → i ≢ k → Fresh i (put k v m)
unfolding put
Fresh-put i k v no_fields h n = (n, tt)
Fresh-put i k v (field j w m) h n = elim (Bool-cases (bytes_eq j k)) [
  | inl here ↦ rw here (n, h.1)
  | inr there ↦ rw there (h.0, Fresh-put i k v m h.1 n)
]

HasDistinctKeys-put :
    (k : Bytes) (v : Value) (m : Fields) → HasDistinctKeys m → HasDistinctKeys (put k v m)
unfolding put
HasDistinctKeys-put k v no_fields h = (tt, tt)
HasDistinctKeys-put k v (field j w m) h = elim (Bool-cases (bytes_eq j k)) [
  | inl here ↦ rw here (subst (λ i. Fresh i m) (bytes_eq-eq j k here) h.0, h.1)
  | inr there ↦
      rw there (
        Fresh-put j k v m h.0 (λ e. ground (arith, bytes_eq_self k)),
        HasDistinctKeys-put k v m h.1,
      )
]

key_of-Yields :
    {B : Type 0} (Q : B → Type 0) (d : ℕ) (k : Value) (g : Bytes → Parsed B)
    → FitsAt d k
    → ((key : Bytes) → FitsAt d (str key) → Yields Q (g key))
    → Yields Q (key_of k >>= g)
unfolding key_of
key_of-Yields Q d (str s) g h c = c s h
key_of-Yields Q d _ g h c = tt

Yields-weaken :
    {A : Type 0} (P Q : A → Type 0) (r : Parsed A) → ((a : A) → P a → Q a) → Yields P r → Yields Q r
Yields-weaken P Q (ok p) k h = k p.0 h
Yields-weaken P Q (err e) k h = tt
Yields-weaken P Q out_of_fuel k h = tt

marker-Yields :
    (d : ℕ) (items : Bytes → Parsed Items) (fields : Bytes → Parsed Fields) (c : ℕ) (s : Bytes)
    → d ≤ 256
    → Yields (FitsItems (suc d)) (items s)
    → Yields (FitsDict (suc d)) (fields s)
    → Yields (FitsAt d) (parse_marker items fields c s)
unfolding parse_integer parse_string
marker-Yields d items fields c s k hi hf =
    Yields-if _ (c == b'i') _ _
      (λ _. Yields-weaken FitsScalar _ _ (λ v h. h d k) (int_tail-Yields _))
      λ _.
        Yields-if _ (c == b'l') _ _
          (λ _. Yields-bind _ _ (items s) list_of hi (λ xs rest h. (k, h)))
          λ _.
            Yields-if _ (c == b'd') _ _
              (λ _. Yields-bind _ _ (fields s) dict_of hf (λ fs rest h. (k, h.0, h.1)))
              λ _.
                Yields-if _ (is_digit c) _ _
                  (λ _. Yields-weaken FitsScalar _ _ (λ v h. h d k) (str_tail-Yields _)) λ _. tt

mutual
  unfolding parse

  parse-Yields : (f d : ℕ) (s : Bytes) → Yields (FitsAt d) (parse f d s)
  parse-Yields zero d s = tt
  parse-Yields (suc f) d [] = Yields-if _ (ltb 256 d) _ _ (λ _. tt) (λ _. tt)
  parse-Yields (suc f) d (c ∷ s) =
      Yields-if _ (ltb 256 d) _ _ (λ _. tt)
        λ shallow.
          marker-Yields d (parse_items f (suc d)) (λ r. parse_fields f (suc d) r no_fields) c s
            (ground arith) (items-Yields f (suc d) s) (fields-Yields f (suc d) s no_fields (tt, tt))

  items-Yields : (f d : ℕ) (s : Bytes) → Yields (FitsItems d) (parse_items f d s)
  items-Yields zero d s = tt
  items-Yields (suc f) d [] = tt
  items-Yields (suc f) d (c ∷ s) =
      Yields-if _ (c == b'e') _ _ (λ _. tt)
        λ _. Yields-bind _ _ (parse f d (c ∷ s)) _ (parse-Yields f d (c ∷ s)) λ v rest h.
          Yields-bind _ _ (parse_items f d rest) _ (items-Yields f d rest) λ xs r hs. (h, hs)

  fields-Yields :
      (f d : ℕ) (s : Bytes) (m : Fields) → FitsDict d m → Yields (FitsDict d) (parse_fields f d s m)
  fields-Yields zero d s m h = tt
  fields-Yields (suc f) d [] m h = tt
  fields-Yields (suc f) d (c ∷ s) m h =
      Yields-if _ (c == b'e') _ _ (λ _. h)
        λ _. Yields-bind _ _ (parse f d (c ∷ s)) _ (parse-Yields f d (c ∷ s)) λ k rest hk.
          key_of-Yields _ d k _ hk λ key hkey.
            Yields-bind _ _ (parse f d rest) _ (parse-Yields f d rest) λ v r hv.
              fields-Yields f d r (put key v m)
                (FitsFields-put d key v m hkey hv h.0, HasDistinctKeys-put key v m h.1)

finish-FitsAt :
    (r : Parsed Value) {v : Value} → Yields (FitsAt 0) r → (r >>= finish) ≡ ok v → FitsAt 0 v
unfolding finish
finish-FitsAt (ok (w, [])) {v} h e = subst (FitsAt 0) (cc) h
finish-FitsAt (ok (w, (c ∷ s))) h e = cc
finish-FitsAt (err x) h e = cc
finish-FitsAt out_of_fuel h e = cc

-- Every value that `Decode` returns nests at most 256 levels deep, its integers are in the range of
-- int64, its strings are shorter than 2^63 bytes, its dicts have no key twice, and it has none of the
-- types that `Encode` refuses.
pub decode-FitsAt : (s : Bytes) {v : Value} → decode s ≡ ok v → FitsAt 0 v
unfolding decode
decode-FitsAt s h = finish-FitsAt (parse (enough s) 0 s) (parse-Yields (enough s) 0 s) h
