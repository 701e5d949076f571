-- ===== src/Bencode/Order.antt =====
-- The byte-wise order of strings, by which backend/internal/bencode/bencode.go sorts dict keys.
use auto_seed_relay.Prelude.{◌≡◌, ◌≢◌, ◌⊎◌, refl, true, false, [], ◌∷◌, arith}
use auto_seed_relay.Bencode.Value.{Bytes, bytes_eq, bytes_lt}

pub bytes_eq-eq : (s t : Bytes) → bytes_eq s t ≡ true → s ≡ t
unfolding bytes_eq
bytes_eq-eq [] [] h = refl
bytes_eq-eq [] (b ∷ t) h = cc
bytes_eq-eq (a ∷ s) [] h = cc
bytes_eq-eq (a ∷ s) (b ∷ t) h = ground (arith, bytes_eq-eq s t)

pub bytes_eq_self : (s : Bytes) → bytes_eq s s ≡ true
unfolding bytes_eq
bytes_eq_self [] = refl
bytes_eq_self (a ∷ s) = ground (arith, bytes_eq_self s)

pub bytes_eq_ne : (s t : Bytes) → s ≢ t → bytes_eq s t ≡ false
bytes_eq_ne s t h = ground (arith, bytes_eq-eq s t)

pub bytes_lt_irrefl : (s : Bytes) → bytes_lt s s ≡ false
unfolding bytes_lt
bytes_lt_irrefl [] = refl
bytes_lt_irrefl (a ∷ s) = ground (arith, bytes_lt_irrefl s)

pub bytes_lt_trans :
    (s t u : Bytes) → bytes_lt s t ≡ true → bytes_lt t u ≡ true → bytes_lt s u ≡ true
unfolding bytes_lt
bytes_lt_trans s [] [] h k = cc
bytes_lt_trans s (b ∷ t) [] h k = cc
bytes_lt_trans [] t (c ∷ u) h k = refl
bytes_lt_trans (a ∷ s) [] (c ∷ u) h k = cc
bytes_lt_trans (a ∷ s) (b ∷ t) (c ∷ u) h k = ground (arith, bytes_lt_trans s t u)

pub bytes_lt_asymm : (s t : Bytes) → bytes_lt s t ≡ true → bytes_lt t s ≡ false
unfolding bytes_lt
bytes_lt_asymm [] [] h = refl
bytes_lt_asymm [] (b ∷ t) h = refl
bytes_lt_asymm (a ∷ s) [] h = cc
bytes_lt_asymm (a ∷ s) (b ∷ t) h = ground (arith, bytes_lt_asymm s t)

pub bytes_lt_connected : (s t : Bytes) → bytes_lt s t ≡ false → bytes_lt t s ≡ false → s ≡ t
unfolding bytes_lt
bytes_lt_connected [] [] h k = refl
bytes_lt_connected [] (b ∷ t) h k = cc
bytes_lt_connected (a ∷ s) [] h k = cc
bytes_lt_connected (a ∷ s) (b ∷ t) h k = ground (arith, bytes_lt_connected s t)

-- Two keys that differ stand in one of the two orders.
pub bytes_lt_cases :
    (s t : Bytes)
    → s ≢ t
    → ((bytes_lt s t ≡ true) × (bytes_lt t s ≡ false))
      ⊎ ((bytes_lt t s ≡ true) × (bytes_lt s t ≡ false))
bytes_lt_cases s t n =
    ground (arith, bytes_lt_connected s t, bytes_lt_asymm s t, bytes_lt_asymm t s)
