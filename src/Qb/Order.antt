-- ===== src/Qb/Order.antt =====
-- The order of names (`sort.Strings` in backend/internal/qb/manager.go).
use Prim.Native.Nat.{ℕ, Ordering, compare as compare_nat}
use Prim.Native.String.{String, compare, then, [], ◌∷◌}
use Prim.Native.String.compare
use Prim.Native.Char.{code}
use mathlib.Core.Path.{◌≡◌, refl}
use mathlib.Core.Bool.{true, false}
use native.Mathlib.Omega.{arith}
use text.Mathlib.Text.{is_le}
use auto_seed_relay.Qb.Manager.{str_le}

abbrev flip : Ordering → Ordering
flip Ordering.lt = Ordering.gt
flip Ordering.eq = Ordering.eq
flip Ordering.gt = Ordering.lt

compare_nat-flip : (a b : ℕ) → compare_nat b a ≡ flip (compare_nat a b)
compare_nat-flip a b = ground arith

then-flip : (o p : Ordering) → then (flip o) (flip p) ≡ flip (then o p)
then-flip Ordering.lt p = refl
then-flip Ordering.eq p = refl
then-flip Ordering.gt p = refl

compare-flip : (s t : String) → compare t s ≡ flip (compare s t)
compare-flip [] [] = rw compare.nil-nil refl
compare-flip [] (d ∷ t) = rw (compare.cons-nil d t, compare.nil-cons d t) refl
compare-flip (c ∷ s) [] = rw (compare.cons-nil c s, compare.nil-cons c s) refl
compare-flip (c ∷ s) (d ∷ t) =
    rw
      (
        compare.cons-cons d c t s,
        compare.cons-cons c d s t,
        compare_nat-flip (code c) (code d),
        compare-flip s t,
      )
      (then-flip (compare_nat (code c) (code d)) (compare s t))

flip_le : (o : Ordering) → is_le o ≡ false → is_le (flip o) ≡ true
flip_le Ordering.lt h = absurd cc
flip_le Ordering.eq h = absurd cc
flip_le Ordering.gt h = refl

-- Of two names one is not after the other.
pub str_le_total : (s t : String) → str_le s t ≡ false → str_le t s ≡ true
str_le_total s t h = rw (compare-flip s t) (flip_le (compare s t) h)
