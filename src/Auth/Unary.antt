-- ===== src/Auth/Unary.antt =====
-- A codec with which the sessions of backend/internal/auth/session.go can be run: bytes are written in
-- unary, and the MAC is constant.
use Prim.Native.String.{String, [], ◌∷◌}
use Prim.Native.Char.{Char, char, code}
use Prim.Native.String.compare
use Prim.Native.Nat.{ℕ, zero, suc, ◌+◌}
use text.Mathlib.Text.{◌==◌ as str_eq}
use mathlib.Core.Path.{◌≡◌, refl, ap, ◌∙◌}
use mathlib.Core.Bool.{false}
use mathlib.Core.Option.{Option, none, some}
use mathlib.Core.List.{List, [] as no_bytes, ◌∷◌ as ◌⊳◌}
use native.Mathlib.Omega.{arith}
use auto_seed_relay.Prelude.{if◌then◌else◌, ◌==◌}
use auto_seed_relay.Auth.Session.{Codec}

abbrev pub cons_some : ℕ → Option (List ℕ) → Option (List ℕ)
cons_some b none = none
cons_some b (some bs) = some (b ⊳ bs)

abbrev pub write_byte : ℕ → String → String
write_byte zero rest = char 59 tt ∷ rest
write_byte (suc n) rest = char 105 tt ∷ write_byte n rest

abbrev pub write_bytes : List ℕ → String
write_bytes no_bytes = "."
write_bytes (b ⊳ bs) = write_byte b (write_bytes bs)

abbrev pub read_bytes : ℕ → String → Option (List ℕ)
read_bytes acc [] = none
read_bytes acc (c ∷ s) =
    let more = read_bytes (suc acc) s in
    let next = cons_some acc (read_bytes 0 s) in
    if code c == 105 then more else if code c == 59 then next else some no_bytes

read_write_byte :
    (acc n : ℕ) (rest : String)
    → read_bytes acc (write_byte n rest) ≡ cons_some (acc + n) (read_bytes 0 rest)
read_write_byte acc zero rest = ap (λ k. cons_some k (read_bytes 0 rest)) (omega arith)
read_write_byte acc (suc n) rest =
    read_write_byte (suc acc) n rest ∙ ap (λ k. cons_some k (read_bytes 0 rest)) (omega arith)

pub read_write : (bs : List ℕ) → read_bytes 0 (write_bytes bs) ≡ some bs
read_write no_bytes = refl
read_write (b ⊳ bs) =
    read_write_byte 0 b (write_bytes bs)
    ∙ rw (read_write bs) (ap (λ k. some (k ⊳ bs)) (omega arith))

cons_nonempty : (c : Char) (s : String) → str_eq (c ∷ s) "" ≡ false
cons_nonempty c s = rw (compare.cons-nil c s) refl

pub write_nonempty : (bs : List ℕ) → str_eq (write_bytes bs) "" ≡ false
write_nonempty no_bytes = refl
write_nonempty (zero ⊳ bs) = cons_nonempty (char 59 tt) (write_bytes bs)
write_nonempty (suc b ⊳ bs) = cons_nonempty (char 105 tt) (write_byte b (write_bytes bs))

abbrev pub zeros : ℕ → List ℕ
zeros zero = no_bytes
zeros (suc n) = 0 ⊳ zeros n

abbrev pub unary_codec : Codec
unary_codec = record {
  sign = λ bs. zeros 32;
  encode = write_bytes;
  decode = read_bytes 0;
  length-sign = λ bs. refl;
  decode-encode = read_write;
  encode_nonempty = write_nonempty;
}
