-- ===== src/Bencode/Lexical.antt =====
-- Integers and strings that backend/internal/bencode/bencode.go prints, and how they are read.
use auto_seed_relay.Prelude.{
  ℕ, suc, ◌<◌, ◌^◌, ◌≡◌, refl, ap, ◌∙◌, true, false, [], ◌∷◌, ◌++◌, some, arith, length,
  length-append, le→ltb, ◌==◌, All, append_assoc,
}
use auto_seed_relay.Prelude.Int.{ℤ, pos, negsuc, IsInt64}
use auto_seed_relay.Bencode.Value.{Bytes, Items, Fields, int, str, ok}
use auto_seed_relay.Bencode.Decimal.{
  is_digit, IsNumeral, format_nat, format_int, format_nat-IsNumeral, parse_int-format_nat,
  parse_int-format_int,
}
use auto_seed_relay.Bencode.Encode.{print_str}
use auto_seed_relay.Bencode.Parse.{
  Parsed, cut, split_at, parse_integer, parse_string, parse_int_tail, parse_str_tail, str_of,
  parse_marker,
}

cut-append :
    (c : ℕ) (t rest : Bytes)
    → All (λ b. (b == c) ≡ false) t
    → cut c (t ++ c ∷ rest) ≡ some (t, rest)
unfolding cut
cut-append c [] rest h = ground arith
cut-append c (b ∷ t) rest h = rw h.0 (rw (cut-append c t rest h.1))

All-weaken : {P Q : ℕ → Type 0} (k : (b : ℕ) → P b → Q b) (t : Bytes) → All P t → All Q t
All-weaken k [] h = tt
All-weaken k (b ∷ t) h = (k b h.0, All-weaken k t h.1)

IsNumeral-All : (t : Bytes) → IsNumeral t → All (λ b. is_digit b ≡ true) t
IsNumeral-All [] h = tt
IsNumeral-All (b ∷ t) h = h

digit-ne-colon : (b : ℕ) → is_digit b ≡ true → (b == b':') ≡ false
digit-ne-colon b h = ground arith

digit-ne-end : (b : ℕ) → is_digit b ≡ true → (b == b'e') ≡ false
digit-ne-end b h = ground arith

format_int-Lacks_end : (z : ℤ) → All (λ b. (b == b'e') ≡ false) (format_int z)
unfolding format_int
format_int-Lacks_end (pos n) = All-weaken digit-ne-end _ (IsNumeral-All _ (format_nat-IsNumeral n))
format_int-Lacks_end (negsuc n) =
    (refl, All-weaken digit-ne-end _ (IsNumeral-All _ (format_nat-IsNumeral (suc n))))

pub parse_integer-format_int :
    (z : ℤ) (rest : Bytes)
    → IsInt64 z
    → parse_integer (format_int z ++ b'e' ∷ rest) ≡ ok (int z, rest)
unfolding parse_integer
parse_integer-format_int z rest h =
    ap parse_int_tail (cut-append b'e' (format_int z) rest (format_int-Lacks_end z))
    ∙ rw (parse_int-format_int z h)

split_at-append : (s rest : Bytes) → split_at (length s) (s ++ rest) ≡ (s, rest)
unfolding split_at
split_at-append [] rest = refl
split_at-append (b ∷ s) rest = rw (split_at-append s rest)

str_of-append : (s rest : Bytes) → str_of (some (pos (length s))) (s ++ rest) ≡ ok (str s, rest)
unfolding str_of
str_of-append s rest =
    rw (le→ltb (length (s ++ rest)) (length s) (omega (arith, length-append s rest)))
      (rw (split_at-append s rest))

print_str-append :
    (s rest : Bytes) → print_str s ++ rest ≡ format_nat (length s) ++ b':' ∷ (s ++ rest)
unfolding print_str
print_str-append s rest = append_assoc (format_nat (length s)) _ rest

pub parse_string-print_str :
    (s rest : Bytes) → length s < 2 ^ 63 → parse_string (print_str s ++ rest) ≡ ok (str s, rest)
unfolding parse_string
parse_string-print_str s rest h = rw print_str-append (
    ap parse_str_tail (
      cut-append b':' (format_nat (length s)) (s ++ rest)
        (All-weaken digit-ne-colon _ (IsNumeral-All _ (format_nat-IsNumeral (length s)))))
    ∙ rw (parse_int-format_nat (length s) h) (str_of-append s rest))

-- A text whose first byte is a digit.
abbrev pub StartsDigit : Bytes → Type 0
StartsDigit [] = ⊥
StartsDigit (c ∷ s) = is_digit c ≡ true

IsNumeral-StartsDigit : (t x : Bytes) → IsNumeral t → StartsDigit (t ++ x)
IsNumeral-StartsDigit [] x h = absurd h
IsNumeral-StartsDigit (c ∷ t) x h = h.0

pub print_str-StartsDigit : (s rest : Bytes) → StartsDigit (print_str s ++ rest)
print_str-StartsDigit s rest =
    rw print_str-append (IsNumeral-StartsDigit _ _ (format_nat-IsNumeral (length s)))

pub parse_marker_digit :
    (items : Bytes → Parsed Items) (fields : Bytes → Parsed Fields) (c : ℕ) (s : Bytes)
    → is_digit c ≡ true
    → parse_marker items fields c s ≡ parse_string (c ∷ s)
parse_marker_digit items fields c s h = ground arith
