-- ===== src/Bencode/Decimal.antt =====
-- The decimal numbers of backend/internal/bencode/bencode.go: `strconv.ParseInt(s, 10, 64)`,
-- `strconv.Itoa` and `strconv.FormatInt(n, 10)`.
use auto_seed_relay.Prelude.{
  ℕ, zero, suc, ◌+◌, ◌-◌, ◌*◌, ◌/◌, ◌%◌, ◌^◌, ◌<◌, ◌≡◌, refl, Bool, true, false, ◌&&◌, [], ◌∷◌,
  Option, none, some, arith, ltb, leb, ◌==◌, if◌then◌else◌, All, Bool-cases, inl, inr, ◌∙◌, lt→ltb,
}
use auto_seed_relay.Prelude.Int.{ℤ, pos, negsuc, IsInt64}
use auto_seed_relay.Bencode.Value.{Bytes}

abbrev pub is_digit : ℕ → Bool
is_digit c = leb b'0' c && leb c b'9'

-- The digits read behind the number `n`; `none` on a byte that is no digit.
unfoldable pub scan : Bytes → ℕ → Option ℕ
scan [] n = some n
scan (c ∷ s) n = if is_digit c then scan s (n * 10 + (c - b'0')) else none

-- One digit or more.
unfoldable pub scan_some : Bytes → Option ℕ
unfolding scan
scan_some [] = none
scan_some (c ∷ s) = scan (c ∷ s) 0

-- The range check of a 64-bit result; `none` is any error of ParseInt.
unfoldable pub signed : Bool → Option ℕ → Option ℤ
signed neg none = none
signed false (some n) = if ltb n (2 ^ 63) then some (pos n) else none
signed true (some zero) = some (pos 0)
signed true (some (suc n)) = if ltb n (2 ^ 63) then some (negsuc n) else none

unfoldable pub parse_int : Bytes → Option ℤ
unfolding scan_some signed
parse_int [] = none
parse_int (c ∷ s) =
    if c == b'+'
    then signed false (scan_some s)
    else if c == b'-'
    then signed true (scan_some s)
    else signed false (scan_some (c ∷ s))

-- The decimal digits of a number put before `out`; `f` bounds the number of digits.
unfoldable pub digits : ℕ → ℕ → Bytes → Bytes
digits zero n out = out
digits (suc f) n out =
    let out' = (b'0' + n % 10) ∷ out in
    let more = digits f (n / 10) out' in if ltb n 10 then out' else more

unfoldable pub format_nat : ℕ → Bytes
unfolding digits
format_nat n = digits (suc n) n []

unfoldable pub format_int : ℤ → Bytes
format_int (pos n) = format_nat n
format_int (negsuc n) = b'-' ∷ format_nat (suc n)

scan_digit : (n : ℕ) (out : Bytes) → scan ((b'0' + n % 10) ∷ out) (n / 10) ≡ scan out n
unfolding scan
scan_digit n out = ground arith

scan-digits : (f n : ℕ) (out : Bytes) → n < f → scan (digits f n out) 0 ≡ scan out n
unfolding digits
scan-digits zero n out h = absurd (omega arith)
scan-digits (suc f) n out h = elim (Bool-cases (ltb n 10)) [
  | inl small ↦ rw small (unfold scan in ground arith)
  | inr big ↦ rw big (scan-digits f (n / 10) _ (ground arith) ∙ scan_digit n out)
]

-- One digit or more, and nothing else.
abbrev pub IsNumeral : Bytes → Type 0
IsNumeral [] = ⊥
IsNumeral (c ∷ s) = (is_digit c ≡ true) × All (λ b. is_digit b ≡ true) s

digits-IsNumeral :
    (f n : ℕ) (out : Bytes) → All (λ b. is_digit b ≡ true) out → IsNumeral (digits (suc f) n out)
unfolding digits
digits-IsNumeral zero n out h = ground arith
digits-IsNumeral (suc f) n out h = elim (Bool-cases (ltb n 10)) [
  | inl small ↦ rw small (ground arith, h)
  | inr big ↦ rw big (digits-IsNumeral f (n / 10) _ (ground arith, h))
]

pub format_nat-IsNumeral : (n : ℕ) → IsNumeral (format_nat n)
format_nat-IsNumeral n = unfold format_nat in digits-IsNumeral n n [] tt

scan_some-scan : (s : Bytes) → IsNumeral s → scan_some s ≡ scan s 0
unfolding scan_some
scan_some-scan [] h = absurd h
scan_some-scan (c ∷ s) h = refl

scan_some-format_nat : (n : ℕ) → scan_some (format_nat n) ≡ some n
scan_some-format_nat n =
    scan_some-scan _ (format_nat-IsNumeral n)
    ∙ unfold format_nat scan in scan-digits (suc n) n [] (omega arith)

-- A text that starts with a digit is read as an unsigned number.
parse_int-IsNumeral : (s : Bytes) → IsNumeral s → parse_int s ≡ signed false (scan_some s)
parse_int-IsNumeral [] h = absurd h
parse_int-IsNumeral (c ∷ s) h = unfold parse_int in ground arith

pub parse_int-format_nat : (n : ℕ) → n < 2 ^ 63 → parse_int (format_nat n) ≡ some (pos n)
parse_int-format_nat n h =
    parse_int-IsNumeral _ (format_nat-IsNumeral n)
    ∙ rw scan_some-format_nat (unfold signed in rw (lt→ltb _ _ h))

parse_int-minus : (s : Bytes) → parse_int (b'-' ∷ s) ≡ signed true (scan_some s)
unfolding parse_int
parse_int-minus s = refl

-- Every int64 is read back from its decimal print.
pub parse_int-format_int : (z : ℤ) → IsInt64 z → parse_int (format_int z) ≡ some z
unfolding format_int
parse_int-format_int (pos n) h = parse_int-format_nat n h.0
parse_int-format_int (negsuc n) h =
    parse_int-minus _
    ∙ rw scan_some-format_nat (unfold signed in rw (lt→ltb n (2 ^ 63) (omega arith)))
