-- ===== src/Source/Dial.antt =====
-- Which addresses are dialed (backend/internal/source/download.go).
use auto_seed_relay.Prelude.{
  ℕ, ◌*◌, ◌+◌, ◌/◌, ◌%◌, ◌^◌, ◌<◌, ◌≡◌, refl, Bool, true, false, List, [], ◌∷◌, Option, none, some,
  leb, ◌==◌, ◌&&◌, ◌||◌, any, arith, All, Bool-cases, inl, inr, some_inj, sym,
}
use auto_seed_relay.Source.Address.{Ip, v4, v6, is_unsafe_ip, check_ips, dial_each, safe_dial}

-- The number of an IPv4 address, and a block by its prefix and its bits.
abbrev pub number : ℕ → ℕ → ℕ → ℕ → ℕ
number a b c d = ((a * 256 + b) * 256 + c) * 256 + d

abbrev pub in_block : ℕ → ℕ × ℕ → Bool
in_block n block = n / 2 ^ block.1 == block.0

-- 127/8, 10/8, 172.16/12, 192.168/16, 169.254/16, 224/4, 0/8, 100.64/10, 192.0.0/24 and 198.18/15, each
-- with the number of its free bits.
abbrev pub unsafe_blocks : List (ℕ × ℕ)
unsafe_blocks =
    (127, 24)
    ∷ (10, 24)
    ∷ (172 * 16 + 1, 20)
    ∷ (192 * 256 + 168, 16)
    ∷ (169 * 256 + 254, 16)
    ∷ (14, 28)
    ∷ (0, 24)
    ∷ (100 * 4 + 1, 22)
    ∷ (192 * 65_536, 8)
    ∷ (198 * 128 + 9, 17)
    ∷ []

module _ (a b c d : ℕ) (ha : a < 256) (hb : b < 256) (hc : c < 256) (hd : d < 256) where
  first_byte : number a b c d / 2 ^ 24 ≡ a
  first_byte = omega arith

  half_byte : number a b c d / 2 ^ 28 ≡ a / 16
  half_byte = omega arith

  two_bytes : number a b c d / 2 ^ 16 ≡ a * 256 + b
  two_bytes = omega arith

  three_bytes : number a b c d / 2 ^ 8 ≡ (a * 256 + b) * 256 + c
  three_bytes = omega arith

  twelve_bits : number a b c d / 2 ^ 20 ≡ a * 16 + b / 16
  twelve_bits = omega arith

  ten_bits : number a b c d / 2 ^ 22 ≡ a * 4 + b / 64
  ten_bits = omega arith

  fifteen_bits : number a b c d / 2 ^ 17 ≡ a * 128 + b / 2
  fifteen_bits = omega arith

  private_172 : (a * 16 + b / 16 == 172 * 16 + 1) ≡ ((a == 172) && (b / 16 == 1))
  private_172 = ground arith

  private_192 : (a * 256 + b == 192 * 256 + 168) ≡ ((a == 192) && (b == 168))
  private_192 = ground arith

  link_local : (a * 256 + b == 169 * 256 + 254) ≡ ((a == 169) && (b == 254))
  link_local = ground arith

  shared : (a * 4 + b / 64 == 100 * 4 + 1) ≡ ((a == 100) && leb 64 b && leb b 127)
  shared = ground arith

  protocol : ((a * 256 + b) * 256 + c == 192 * 65_536) ≡ ((a == 192) && (b == 0) && (c == 0))
  protocol = ground arith

  benchmark : (a * 128 + b / 2 == 198 * 128 + 9) ≡ ((a == 198) && ((b == 18) || (b == 19)))
  benchmark = ground arith

  local_multicast : ((a == 224) && (b == 0) && (c == 0)) ≡ true → (a / 16 == 14) ≡ true
  local_multicast h = ground arith

  unspecified : ((a == 0) && (b == 0) && (c == 0) && (d == 0)) ≡ true → (a == 0) ≡ true
  unspecified h = ground arith

-- The two orders in which the tests are made.
same_tests :
    (x1 x2 x3 x4 x5 q m r z x8 x9 x10 : Bool)
    → (q ≡ true → m ≡ true)
    → (r ≡ true → z ≡ true)
    → (x1 || (x2 || x3 || x4) || x5 || q || m || r || (z || x8 || x9 || x10))
      ≡ any (λ x. x) (x1 ∷ x2 ∷ x3 ∷ x4 ∷ x5 ∷ m ∷ z ∷ x8 ∷ x9 ∷ x10 ∷ [])
same_tests true x2 x3 x4 x5 q m r z x8 x9 x10 h k = refl
same_tests false true x3 x4 x5 q m r z x8 x9 x10 h k = refl
same_tests false false true x4 x5 q m r z x8 x9 x10 h k = refl
same_tests false false false true x5 q m r z x8 x9 x10 h k = refl
same_tests false false false false true q m r z x8 x9 x10 h k = refl
same_tests false false false false false true m r z x8 x9 x10 h k = rw (h refl) refl
same_tests false false false false false false true r z x8 x9 x10 h k = refl
same_tests false false false false false false false true z x8 x9 x10 h k = rw (k refl) refl
same_tests false false false false false false false false true x8 x9 x10 h k = refl
same_tests false false false false false false false false false true x9 x10 h k = refl
same_tests false false false false false false false false false false true x10 h k = refl
same_tests false false false false false false false false false false false true h k = refl
same_tests false false false false false false false false false false false false h k = refl

unsafe_iff :
    (a b c d : ℕ)
    → a < 256
    → b < 256
    → c < 256
    → d < 256
    → is_unsafe_ip (v4 a b c d) ≡ any (in_block (number a b c d)) unsafe_blocks
unfolding is_unsafe_ip
unsafe_iff a b c d ha hb hc hd =
    rw
      (
        first_byte a b c d ha hb hc hd,
        half_byte a b c d ha hb hc hd,
        two_bytes a b c d ha hb hc hd,
        three_bytes a b c d ha hb hc hd,
        twelve_bits a b c d ha hb hc hd,
        ten_bits a b c d ha hb hc hd,
        fifteen_bits a b c d ha hb hc hd,
        private_172 a b c d ha hb hc hd,
        private_192 a b c d ha hb hc hd,
        link_local a b c d ha hb hc hd,
        shared a b c d ha hb hc hd,
        protocol a b c d ha hb hc hd,
        benchmark a b c d ha hb hc hd,
      )
      (same_tests (a == 127) (a == 10) ((a == 172) && (b / 16 == 1)) ((a == 192) && (b == 168))
        ((a == 169) && (b == 254)) ((a == 224) && (b == 0) && (c == 0)) (a / 16 == 14)
        ((a == 0) && (b == 0) && (c == 0) && (d == 0)) (a == 0)
        ((a == 100) && leb 64 b && leb b 127) ((a == 192) && (b == 0) && (c == 0))
        ((a == 198) && ((b == 18) || (b == 19))) (local_multicast a b c d ha hb hc hd)
        (unspecified a b c d ha hb hc hd))

mapped_same :
    (a b c d : ℕ)
    → b < 256
    → d < 256
    → is_unsafe_ip (v6 0 0 0 0 0 65_535 (a * 256 + b) (c * 256 + d)) ≡ is_unsafe_ip (v4 a b c d)
unfolding is_unsafe_ip
mapped_same a b c d hb hd =
    let e1 : (a * 256 + b) / 256 ≡ a = omega arith in
    let e2 : (a * 256 + b) % 256 ≡ b = omega arith in
    let e3 : (c * 256 + d) / 256 ≡ c = omega arith in
    let e4 : (c * 256 + d) % 256 ≡ d = omega arith in rw (e1, e2, e3, e4) refl

abbrev IsSafe : Ip → Type 0
IsSafe ip = is_unsafe_ip ip ≡ false

-- Every address that is dialed, and the one that is connected to.
abbrev Dials : (Ip → Bool) → List Ip × Option Ip → Type 0
Dials connects r =
    All IsSafe r.0 × ((ip : Ip) → r.1 ≡ some ip → (is_unsafe_ip ip ≡ false) × (connects ip ≡ true))

dial_each-Dials :
    (connects : Ip → Bool) (ips : List Ip)
    → any is_unsafe_ip ips ≡ false
    → Dials connects (dial_each connects ips)
unfolding dial_each
dial_each-Dials connects [] h = (tt, λ ip k. absurd cc)
dial_each-Dials connects (ip ∷ ips) h = elim (Bool-cases (is_unsafe_ip ip)) [
  | inl bad ↦ absurd (let k = rw bad at h in cc)
  | inr safe ↦
      let (a, b) = dial_each-Dials connects ips (rw safe at h) in
      elim (Bool-cases (connects ip)) [
        | inl up ↦ rw up (
          (safe, tt),
          λ q k. let same : ip ≡ q = some_inj k in (rw (sym same) safe, rw (sym same) up),
        )
        | inr down ↦ rw down ((safe, a), b)
      ]
]

safe_dial-Dials :
    (connects : Ip → Bool) (lookup : Option (List Ip))
    → Dials connects (safe_dial connects lookup)
      × ((ips : List Ip)
          → lookup ≡ some ips
          → any is_unsafe_ip ips ≡ true
          → (safe_dial connects lookup).0 ≡ [])
unfolding safe_dial check_ips
safe_dial-Dials connects none = ((tt, λ ip k. absurd cc), λ ips k l. refl)
safe_dial-Dials connects (some []) = ((tt, λ ip k. absurd cc), λ ips k l. refl)
safe_dial-Dials connects (some (ip ∷ ips)) = elim (Bool-cases (any is_unsafe_ip (ip ∷ ips))) [
  | inl bad ↦ rw bad ((tt, λ q k. absurd cc), λ qs k l. refl)
  | inr fine ↦
      rw fine
        (dial_each-Dials connects (ip ∷ ips) fine, λ qs k l. absurd (let same = some_inj k in cc))
]

-- Whatever the resolver answers: only addresses are dialed that the check finds safe, so is the one that
-- is connected to, and if one of the addresses is not safe none is dialed. An IPv4 address is unsafe
-- exactly if it lies in one of ten blocks, and mapping it into IPv6 changes nothing.
pub dial_safe :
    (connects : Ip → Bool) (lookup : Option (List Ip))
    → (All (λ ip. is_unsafe_ip ip ≡ false) (safe_dial connects lookup).0
        × ((ip : Ip)
            → (safe_dial connects lookup).1 ≡ some ip
            → (is_unsafe_ip ip ≡ false) × (connects ip ≡ true)))
      × ((ips : List Ip)
          → lookup ≡ some ips
          → any is_unsafe_ip ips ≡ true
          → (safe_dial connects lookup).0 ≡ [])
      × ((a b c d : ℕ)
          → a < 256
          → b < 256
          → c < 256
          → d < 256
          → (is_unsafe_ip (v4 a b c d) ≡ any (in_block (number a b c d)) unsafe_blocks)
            × (is_unsafe_ip (v6 0 0 0 0 0 65_535 (a * 256 + b) (c * 256 + d))
                ≡ is_unsafe_ip (v4 a b c d)))
dial_safe connects lookup = (
  (safe_dial-Dials connects lookup).0,
  (safe_dial-Dials connects lookup).1,
  λ a b c d ha hb hc hd. (unsafe_iff a b c d ha hb hc hd, mapped_same a b c d hb hd),
)
