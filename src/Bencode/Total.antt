-- ===== src/Bencode/Total.antt =====
-- `parse` of backend/internal/bencode/bencode.go and its fuel.
use auto_seed_relay.Prelude.{
  ℕ, zero, suc, ◌+◌, ◌*◌, ◌≤◌, ◌<◌, ◌≡◌, ◌≢◌, refl, Bool, true, false, [], ◌∷◌, Option, none, some,
  arith, length, ltb, ◌==◌, Bool-cases, inl, inr, if◌then◌else◌,
}
use auto_seed_relay.Prelude.Int.{ℤ, pos, negsuc}
use auto_seed_relay.Bencode.Value.{
  Bytes, Value, Items, Fields, str, ok, err, out_of_fuel, ◌>>=◌, no_fields, put,
}
use auto_seed_relay.Bencode.Decimal.{parse_int, is_digit}
use auto_seed_relay.Bencode.Parse.{
  cut, later, split_at, int_of, str_of, parse_int_tail, parse_str_tail, Parsed, parse_integer,
  parse_string, key_of, list_of, dict_of, parse_marker, parse, parse_items, parse_fields, finish,
  enough, decode,
}

-- The run kept within its fuel, and a result leaves fewer than `n` bytes.
abbrev pub Shrinks : {A : Type 0} → ℕ → Parsed A → Type 0
Shrinks n (ok p) = length p.1 < n
Shrinks n (err e) = Unit
Shrinks n out_of_fuel = ⊥

Shrinks-bind :
    {A B : Type 0} (m n : ℕ) (r : Parsed A) (g : A × Bytes → Parsed B)
    → Shrinks m r
    → ((a : A) (rest : Bytes) → length rest < m → Shrinks n (g (a, rest)))
    → Shrinks n (r >>= g)
Shrinks-bind m n (ok (a, rest)) g h k = k a rest h
Shrinks-bind m n (err e) g h k = tt
Shrinks-bind m n out_of_fuel g h k = absurd h

Shrinks-if :
    {A : Type 0} (n : ℕ) (b : Bool) (x y : Parsed A)
    → (b ≡ true → Shrinks n x)
    → (b ≡ false → Shrinks n y)
    → Shrinks n (if b then x else y)
Shrinks-if n true x y h k = h refl
Shrinks-if n false x y h k = k refl

-- What stands behind the byte found is shorter than `n`.
abbrev Behind : ℕ → Option (Bytes × Bytes) → Type 0
Behind n none = Unit
Behind n (some p) = length p.1 < n

Behind-later : (n b : ℕ) (o : Option (Bytes × Bytes)) → Behind n o → Behind (suc n) (later b o)
Behind-later n b none h = tt
Behind-later n b (some p) h = omega arith

Behind-cut : (c : ℕ) (s : Bytes) → Behind (length s) (cut c s)
unfolding cut
Behind-cut c [] = tt
Behind-cut c (b ∷ s) = elim (Bool-cases (b == c)) [
  | inl here ↦ rw here (omega arith)
  | inr there ↦ rw there (Behind-later (length s) b (cut c s) (Behind-cut c s))
]

length-split_at : (n : ℕ) (s : Bytes) → length (split_at n s).1 ≤ length s
unfolding split_at
length-split_at zero s = omega arith
length-split_at (suc n) [] = omega arith
length-split_at (suc n) (b ∷ s) = omega (arith, length-split_at n s)

int_of-Shrinks : (n : ℕ) (z : Option ℤ) (rest : Bytes) → length rest < n → Shrinks n (int_of z rest)
unfolding int_of
int_of-Shrinks n none rest h = tt
int_of-Shrinks n (some z) rest h = h

int_tail-Shrinks : (n : ℕ) (o : Option (Bytes × Bytes)) → Behind n o → Shrinks n (parse_int_tail o)
unfolding parse_int_tail
int_tail-Shrinks n none h = tt
int_tail-Shrinks n (some (p, rest)) h = int_of-Shrinks n (parse_int p) rest h

integer-Shrinks : (s : Bytes) → Shrinks (length s) (parse_integer s)
integer-Shrinks s = unfold parse_integer in int_tail-Shrinks _ (cut b'e' s) (Behind-cut b'e' s)

str_of-Shrinks : (n : ℕ) (z : Option ℤ) (rest : Bytes) → length rest < n → Shrinks n (str_of z rest)
unfolding str_of
str_of-Shrinks n none rest h = tt
str_of-Shrinks n (some (negsuc k)) rest h = tt
str_of-Shrinks n (some (pos k)) rest h =
    Shrinks-if n (ltb (length rest) k) _ _ (λ _. tt) (λ _. omega (arith, length-split_at k rest))

str_tail-Shrinks : (n : ℕ) (o : Option (Bytes × Bytes)) → Behind n o → Shrinks n (parse_str_tail o)
unfolding parse_str_tail
str_tail-Shrinks n none h = tt
str_tail-Shrinks n (some (p, rest)) h = str_of-Shrinks n (parse_int p) rest h

string-Shrinks : (s : Bytes) → Shrinks (length s) (parse_string s)
string-Shrinks s = unfold parse_string in str_tail-Shrinks _ (cut b':' s) (Behind-cut b':' s)

Shrinks-le : {A : Type 0} (m n : ℕ) (r : Parsed A) → Shrinks m r → m ≤ n → Shrinks n r
Shrinks-le m n (ok p) h k = omega arith
Shrinks-le m n (err e) h k = tt
Shrinks-le m n out_of_fuel h k = absurd h

key_of-Shrinks :
    {B : Type 0} (n : ℕ) (k : Value) (g : Bytes → Parsed B)
    → ((key : Bytes) → Shrinks n (g key))
    → Shrinks n (key_of k >>= g)
unfolding key_of
key_of-Shrinks n (str s) g h = h s
key_of-Shrinks n _ g h = tt

marker-Shrinks :
    (items : Bytes → Parsed Items) (fields : Bytes → Parsed Fields) (c : ℕ) (s : Bytes)
    → Shrinks (length s) (items s)
    → Shrinks (length s) (fields s)
    → Shrinks (suc (length s)) (parse_marker items fields c s)
marker-Shrinks items fields c s hi hf =
    Shrinks-if _ (c == b'i') _ _ (λ _. Shrinks-le _ _ _ (integer-Shrinks s) (omega arith))
      λ _.
        Shrinks-if _ (c == b'l') _ _
          (λ _. Shrinks-bind _ _ (items s) list_of hi (λ a rest h. omega arith))
          λ _.
            Shrinks-if _ (c == b'd') _ _
              (λ _. Shrinks-bind _ _ (fields s) dict_of hf (λ a rest h. omega arith))
              λ _. Shrinks-if _ (is_digit c) _ _ (λ _. string-Shrinks (c ∷ s)) λ _. tt

mutual
  unfolding parse

  parse-Shrinks :
      (f depth : ℕ) (s : Bytes) → 2 * length s < f → Shrinks (length s) (parse f depth s)
  parse-Shrinks zero depth s h = absurd (omega arith)
  parse-Shrinks (suc f) depth [] h = Shrinks-if _ (ltb 256 depth) _ _ (λ _. tt) (λ _. tt)
  parse-Shrinks (suc f) depth (c ∷ s) h =
      Shrinks-if _ (ltb 256 depth) _ _ (λ _. tt)
        λ _.
          marker-Shrinks (parse_items f (suc depth)) (λ r. parse_fields f (suc depth) r no_fields) c
            s (items-Shrinks f (suc depth) s (omega arith))
            (fields-Shrinks f (suc depth) s no_fields (omega arith))

  items-Shrinks :
      (f depth : ℕ) (s : Bytes) → 2 * length s + 1 < f → Shrinks (length s) (parse_items f depth s)
  items-Shrinks zero depth s h = absurd (omega arith)
  items-Shrinks (suc f) depth [] h = tt
  items-Shrinks (suc f) depth (c ∷ s) h =
      Shrinks-if _ (c == b'e') _ _ (λ _. omega arith)
        λ _.
          Shrinks-bind _ _ (parse f depth (c ∷ s)) _ (parse-Shrinks f depth (c ∷ s) (omega arith))
            λ v rest k.
              Shrinks-bind _ _ (parse_items f depth rest) _
                (items-Shrinks f depth rest (omega arith)) λ xs r l. omega arith

  fields-Shrinks :
      (f depth : ℕ) (s : Bytes) (d : Fields)
      → 2 * length s + 1 < f
      → Shrinks (length s) (parse_fields f depth s d)
  fields-Shrinks zero depth s d h = absurd (omega arith)
  fields-Shrinks (suc f) depth [] d h = tt
  fields-Shrinks (suc f) depth (c ∷ s) d h =
      Shrinks-if _ (c == b'e') _ _ (λ _. omega arith)
        λ _.
          Shrinks-bind _ _ (parse f depth (c ∷ s)) _ (parse-Shrinks f depth (c ∷ s) (omega arith))
            λ v rest k. key_of-Shrinks _ v _ λ key.
              Shrinks-bind _ _ (parse f depth rest) _ (parse-Shrinks f depth rest (omega arith))
                λ w r l.
                  Shrinks-le _ _ _ (fields-Shrinks f depth r (put key w d) (omega arith))
                    (omega arith)

finish-ne-out_of_fuel : (p : Value × Bytes) → finish p ≢ out_of_fuel
unfolding finish
finish-ne-out_of_fuel (v, []) = cc
finish-ne-out_of_fuel (v, (c ∷ s)) = cc

bind-ne-out_of_fuel : (n : ℕ) (r : Parsed Value) → Shrinks n r → (r >>= finish) ≢ out_of_fuel
bind-ne-out_of_fuel n (ok p) h = finish-ne-out_of_fuel p
bind-ne-out_of_fuel n (err e) h = cc
bind-ne-out_of_fuel n out_of_fuel h = absurd h

-- `Decode` returns on every text: with the fuel given it never runs out.
pub decode_total : (s : Bytes) → decode s ≢ out_of_fuel
decode_total s =
    unfold decode in
    bind-ne-out_of_fuel _ (parse (enough s) 0 s) (parse-Shrinks (enough s) 0 s (omega arith))
