-- ===== src/Bencode/Steps.antt =====
-- One step of the loops of `parse` (backend/internal/bencode/bencode.go) on what `Encode` prints.
use auto_seed_relay.Prelude.{
  ℕ, zero, suc, ◌≤◌, ◌<◌, ◌^◌, ◌≡◌, refl, ◌∙◌, false, [], ◌∷◌, ◌++◌, arith, length, le→ltb, ◌==◌,
}
use auto_seed_relay.Bencode.Value.{
  Bytes, Value, Fields, int, str, list, dict, other, no_fields, ok, ◌>>=◌, put,
}
use auto_seed_relay.Bencode.Encode.{print_str, print_int}
use auto_seed_relay.Bencode.Emit.{emit}
use auto_seed_relay.Bencode.Canonical.{FitsAt}
use auto_seed_relay.Bencode.Parse.{
  parse, parse_items, parse_fields, parse_string, cons_item, key_of,
}
use auto_seed_relay.Bencode.Lexical.{
  parse_string-print_str, StartsDigit, print_str-StartsDigit, parse_marker_digit,
}

-- A text that does not start with the end marker.
abbrev NotEnd : Bytes → Type 0
NotEnd [] = ⊥
NotEnd (c ∷ s) = (c == b'e') ≡ false

pub NotEnd-StartsDigit : (s : Bytes) → StartsDigit s → NotEnd s
NotEnd-StartsDigit [] h = absurd h
NotEnd-StartsDigit (c ∷ s) h = ground arith

pub NotEnd-emit : (d : ℕ) (v : Value) (rest : Bytes) → FitsAt d v → NotEnd (emit v ++ rest)
unfolding emit
NotEnd-emit d (int n) rest h = unfold print_int in refl
NotEnd-emit d (str s) rest h = NotEnd-StartsDigit _ (print_str-StartsDigit s rest)
NotEnd-emit d (list xs) rest h = refl
NotEnd-emit d (dict fs) rest h = refl
NotEnd-emit d other rest h = absurd h

pub length_pos : (s : Bytes) → NotEnd (s ++ []) → 0 < length s
length_pos [] h = absurd h
length_pos (c ∷ s) h = omega arith

-- One round of each loop, on a text that does not start with the end marker.
pub items_step :
    (f d : ℕ) (s : Bytes)
    → NotEnd s
    → parse_items (suc f) d s ≡ (parse f d s >>= λ (v, rest). parse_items f d rest >>= cons_item v)
unfolding parse
items_step f d [] h = absurd h
items_step f d (c ∷ s) h = rw h

pub fields_step :
    (f d : ℕ) (s : Bytes) (m : Fields)
    → NotEnd s
    → parse_fields (suc f) d s m ≡ (
        parse f d s >>= λ (k, rest).
        key_of k >>= λ key. parse f d rest >>= λ (v, rest'). parse_fields f d rest' (put key v m))
unfolding parse
fields_step f d [] m h = absurd h
fields_step f d (c ∷ s) m h = rw h

-- What a call of `parse` within the depth does with a string.
parse-StartsDigit :
    (f d : ℕ) (s : Bytes) → d ≤ 256 → StartsDigit s → 0 < f → parse f d s ≡ parse_string s
unfolding parse
parse-StartsDigit zero d s k h l = absurd (omega arith)
parse-StartsDigit (suc f) d [] k h l = absurd h
parse-StartsDigit (suc f) d (c ∷ s) k h l =
    rw (le→ltb 256 d k)
      (parse_marker_digit (parse_items f (suc d)) (λ r. parse_fields f (suc d) r no_fields) c s h)

pub parse-print_str :
    (f d : ℕ) (s rest : Bytes)
    → d ≤ 256
    → length s < 2 ^ 63
    → 0 < f
    → parse f d (print_str s ++ rest) ≡ ok (str s, rest)
parse-print_str f d s rest k h l =
    parse-StartsDigit f d _ k (print_str-StartsDigit s rest) l ∙ parse_string-print_str s rest h
