-- ===== src/Source/Address.antt =====
-- `isUnsafeIP` and `checkIPs` of backend/internal/source/download.go, with what they use of Go's net.IP.
use auto_seed_relay.Prelude.{
  ℕ, ◌/◌, ◌%◌, Bool, false, not, List, [], ◌∷◌, Option, none, some, if◌then◌else◌, leb, ◌==◌, ◌&&◌,
  ◌||◌, any,
}

-- An IPv4 address of four bytes, or an IPv6 address of eight groups of sixteen bits.
pub data Ip : Type 0 where
  v4 : ℕ → ℕ → ℕ → ℕ → Ip
  v6 : ℕ → ℕ → ℕ → ℕ → ℕ → ℕ → ℕ → ℕ → Ip

abbrev pub is_mapped : ℕ → ℕ → ℕ → ℕ → ℕ → ℕ → Bool
is_mapped g h i j k l = (g == 0) && (h == 0) && (i == 0) && (j == 0) && (k == 0) && (l == 65_535)

-- `To4`, by which an IPv4 address that is mapped into IPv6 counts as IPv4; others stay.
abbrev pub to_v4 : Ip → Ip
to_v4 (v4 a b c d) = v4 a b c d
to_v4 (v6 g h i j k l m n) =
    if is_mapped g h i j k l then v4 (m / 256) (m % 256) (n / 256) (n % 256) else v6 g h i j k l m n

abbrev pub is_loopback : Ip → Bool
is_loopback (v4 a b c d) = a == 127
is_loopback (v6 g h i j k l m n) =
    (g == 0) && (h == 0) && (i == 0) && (j == 0) && (k == 0) && (l == 0) && (m == 0) && (n == 1)

abbrev pub is_private : Ip → Bool
is_private (v4 a b c d) = (a == 10) || ((a == 172) && (b / 16 == 1)) || ((a == 192) && (b == 168))
is_private (v6 g h i j k l m n) = g / 256 / 2 == 126

abbrev pub is_link_local_unicast : Ip → Bool
is_link_local_unicast (v4 a b c d) = (a == 169) && (b == 254)
is_link_local_unicast (v6 g h i j k l m n) = (g / 256 == 254) && (g % 256 / 64 == 2)

abbrev pub is_link_local_multicast : Ip → Bool
is_link_local_multicast (v4 a b c d) = (a == 224) && (b == 0) && (c == 0)
is_link_local_multicast (v6 g h i j k l m n) = (g / 256 == 255) && (g % 256 % 16 == 2)

abbrev pub is_multicast : Ip → Bool
is_multicast (v4 a b c d) = a / 16 == 14
is_multicast (v6 g h i j k l m n) = g / 256 == 255

abbrev pub is_unspecified : Ip → Bool
is_unspecified (v4 a b c d) = (a == 0) && (b == 0) && (c == 0) && (d == 0)
is_unspecified (v6 g h i j k l m n) =
    (g == 0) && (h == 0) && (i == 0) && (j == 0) && (k == 0) && (l == 0) && (m == 0) && (n == 0)

-- The blocks that `isUnsafeIP` adds for IPv4.
abbrev pub is_reserved : Ip → Bool
is_reserved (v6 g h i j k l m n) = false
is_reserved (v4 a b c d) =
    (a == 0)
    || ((a == 100) && leb 64 b && leb b 127)
    || ((a == 192) && (b == 0) && (c == 0))
    || ((a == 198) && ((b == 18) || (b == 19)))

-- `isUnsafeIP`; each test of net.IP goes by `To4` first.
unfoldable pub is_unsafe_ip : Ip → Bool
is_unsafe_ip ip =
    let n = to_v4 ip in
    is_loopback n
    || is_private n
    || is_link_local_unicast n
    || is_link_local_multicast n
    || is_multicast n
    || is_unspecified n
    || is_reserved n

-- `checkIPs`, whether it returns no error.
unfoldable pub check_ips : List Ip → Bool
check_ips [] = false
check_ips (ip ∷ ips) = not (any is_unsafe_ip (ip ∷ ips))

unfoldable pub dial_each : (Ip → Bool) → List Ip → List Ip × Option Ip
dial_each connects [] = ([], none)
dial_each connects (ip ∷ ips) =
    let (dialed, found) = dial_each connects ips in
    if connects ip then (ip ∷ [], some ip) else (ip ∷ dialed, found)

-- `safeDialContext`: the addresses that are dialed, and the one that was connected to, with what the
-- resolver answers and whether an address can be connected to.
unfoldable pub safe_dial : (Ip → Bool) → Option (List Ip) → List Ip × Option Ip
safe_dial connects none = ([], none)
safe_dial connects (some ips) = if check_ips ips then dial_each connects ips else ([], none)
