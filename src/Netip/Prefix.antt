-- ===== src/Netip/Prefix.antt =====
-- Prefixes of net/netip, the classes of an address, and what the core asks of them.
use offveil.Prelude.{
  ℕ, zero, suc, ◌+◌, ◌-◌, ◌*◌, ◌/◌, ◌%◌, Bool, true, false, not, ◌&&◌, ◌||◌, Option, none, some, [],
  ◌∷◌, ◌≡◌, refl, Text, codes, is_empty, length, leb, ltb, ◌==◌, if◌then◌else◌, cut, all,
}
use offveil.Netip.{Addr, v4, v6, is_digit}
use offveil.Netip.V6.{parse_addr}

-- A shift of an unsigned number to the right, and to the left.
abbrev pub shr : ℕ → ℕ → ℕ
shr n zero = n
shr n (suc k) = shr (n / 2) k

abbrev pub shl : ℕ → ℕ → ℕ
shl n zero = n
shl n (suc k) = shl n k * 2

pub record Prefix : Type 0 where
  pub addr : Addr
  pub bits : ℕ

abbrev pub width : Addr → ℕ
width (v4 n) = 32
width (v6 n) = 128

abbrev pub value : Addr → ℕ
value (v4 n) = n
value (v6 n) = n

abbrev pub with_value : Addr → ℕ → Addr
with_value (v4 n) m = v4 m
with_value (v6 n) m = v6 m

abbrev pub is4 : Addr → Bool
is4 (v4 n) = true
is4 (v6 n) = false

abbrev pub same_family : Addr → Addr → Bool
same_family a b = width a == width b

abbrev pub addr_eq : Addr → Addr → Bool
addr_eq a b = same_family a b && value a == value b

abbrev pub prefix_eq : Prefix → Prefix → Bool
prefix_eq p q = addr_eq p.addr q.addr && p.bits == q.bits

abbrev pub is_valid : Prefix → Bool
is_valid p = leb p.bits (width p.addr)

-- Whether two addresses of one family agree in their first `bits` bits.
unfoldable pub agree : ℕ → Addr → Addr → Bool
agree bits a b = same_family a b && shr (value a) (width a - bits) == shr (value b) (width a - bits)

unfoldable pub masked : Prefix → Prefix
masked p =
    let k = width p.addr - p.bits in
    record p { addr = with_value p.addr (shl (shr (value p.addr) k) k) }

abbrev pub contains_addr : Prefix → Addr → Bool
contains_addr p a = is_valid p && agree p.bits p.addr a

abbrev pub min_of : ℕ → ℕ → ℕ
min_of a b = if leb a b then a else b

unfoldable pub overlaps : Prefix → Prefix → Bool
unfolding agree
overlaps p q = is_valid p && is_valid q && agree (min_of p.bits q.bits) p.addr q.addr

-- The prefix of one address.
abbrev pub single : Addr → Prefix
single a = record { addr = a; bits = width a }

-- IPv4 addresses that are written as IPv6.
abbrev pub is_4in6 : Addr → Bool
is_4in6 (v4 n) = false
is_4in6 (v6 n) = shr n 32 == 65535

abbrev pub unmap : Addr → Addr
unmap (v4 n) = v4 n
unmap (v6 n) = if shr n 32 == 65535 then v4 (n % 4294967296) else v6 n

-- The classes of net/netip, for an address that is not written as 4-in-6.
abbrev pub is_loopback : Addr → Bool
is_loopback (v4 n) = shr n 24 == 127
is_loopback (v6 n) = n == 1

abbrev pub is_private : Addr → Bool
is_private (v4 n) = shr n 24 == 10 || shr n 20 == 2753 || shr n 16 == 49320
is_private (v6 n) = shr n 121 == 126

abbrev pub is_link_local : Addr → Bool
is_link_local (v4 n) = shr n 16 == 43518
is_link_local (v6 n) = shr n 118 == 1018

abbrev pub is_multicast : Addr → Bool
is_multicast (v4 n) = shr n 28 == 14
is_multicast (v6 n) = shr n 120 == 255

abbrev pub is_unspecified : Addr → Bool
is_unspecified a = value a == 0

-- Decimal digits, at least one.
abbrev decimal_from : ℕ → Text → ℕ
decimal_from acc [] = acc
decimal_from acc (c ∷ s) = decimal_from (acc * 10 + (c - b'0')) s

unfoldable pub decimal : Text → Option ℕ
unfolding is_digit
decimal s = if not (is_empty s) && all is_digit s then some (decimal_from 0 s) else none

abbrev has_zero_first : Text → Bool
has_zero_first [] = false
has_zero_first (c ∷ s) = c == b'0'

abbrev with_bits : Option Addr → Option ℕ → Option Prefix
with_bits (some a) (some n) = if leb n (width a) then some (record { addr = a; bits = n }) else none
with_bits _ _ = none

-- ParsePrefix.
unfoldable pub parse_prefix : Text → Option Prefix
unfolding parse_addr decimal cut
parse_prefix s =
    let (addr, bits, found) = cut b'/' s in
    if not found || (has_zero_first bits && ltb 1 (length bits))
    then none
    else with_bits (parse_addr addr) (decimal bits)

abbrev or_nothing : Option Prefix → Prefix
or_nothing none = record { addr = v4 0; bits = 0 }
or_nothing (some p) = p

-- MustParsePrefix, on the literals of the source, which all parse.
unfoldable pub must_parse_prefix : Text → Prefix
unfolding parse_prefix
must_parse_prefix s = or_nothing (parse_prefix s)

parse_tun : parse_prefix (codes "10.87.0.1/30") ≡ some (record { addr = v4 173473793; bits = 30 })
unfolding parse_prefix
parse_tun = refl

parse_long : parse_prefix (codes "10.0.0.0/33") ≡ none
unfolding parse_prefix
parse_long = refl

masked_tun :
    masked (must_parse_prefix (codes "10.87.0.1/30")) ≡ must_parse_prefix (codes "10.87.0.0/30")
unfolding masked must_parse_prefix
masked_tun = refl

abbrev private_at : Text → Bool
private_at s = is_private (must_parse_prefix s).addr

private_edges :
    (private_at (codes "172.31.255.255/32") ≡ true)
    × (private_at (codes "172.32.0.0/32") ≡ false)
    × (private_at (codes "fdff::1/128") ≡ true)
    × (private_at (codes "fe00::/128") ≡ false)
unfolding must_parse_prefix
private_edges = (refl, refl, refl, refl)
