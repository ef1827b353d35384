-- ===== src/Netip.antt =====
-- The part of Go's net/netip that the core relies on: addresses, IPv4 literals and prefixes.
-- An address is a number below 2^32 or below 2^128; zones do not occur in the program's data.
use offveil.Prelude.{
  ℕ, ◌+◌, ◌-◌, ◌*◌, Bool, false, ◌&&◌, ◌||◌, Option, none, some, List, [], ◌∷◌, ◌≡◌, refl, Text,
  codes, is_empty, length, leb, ltb, ◌==◌, if◌then◌else◌, split,
}
pub mod V6
pub mod Prefix
pub mod HostPort
pub mod Bits

pub data Addr : Type 0 where
  v4 v6 : ℕ → Addr

unfoldable pub is_digit : ℕ → Bool
is_digit c = leb b'0' c && leb c b'9'

-- The value of a run of digits that stays within one octet.
unfoldable pub octet_from : ℕ → Text → Option ℕ
unfolding is_digit
octet_from acc [] = some acc
octet_from acc (c ∷ s) =
    let v = acc * 10 + (c - b'0') in
    let rest = octet_from v s in if is_digit c && leb v 255 then rest else none

abbrev begins_with : ℕ → Text → Bool
begins_with c [] = false
begins_with c (d ∷ s) = d == c

-- One decimal field: not empty, no leading zero, at most 255.
unfoldable pub octet : Text → Option ℕ
unfolding octet_from
octet s = if is_empty s || (begins_with b'0' s && ltb 1 (length s)) then none else octet_from 0 s

abbrev octets : List Text → List (Option ℕ)
octets [] = []
octets (s ∷ ss) = octet s ∷ octets ss

abbrev four : List (Option ℕ) → Option ℕ
four (some a ∷ some b ∷ some c ∷ some d ∷ []) = some (((a * 256 + b) * 256 + c) * 256 + d)
four _ = none

-- ParseAddr on a text whose first special byte is a dot.
unfoldable pub parse_ipv4 : Text → Option ℕ
unfolding octet split
parse_ipv4 s = four (octets (split b'.' s))

parse_loopback : parse_ipv4 (codes "127.0.0.1") ≡ some 2130706433
unfolding parse_ipv4
parse_loopback = refl

parse_leading_zero : parse_ipv4 (codes "127.0.0.01") ≡ none
unfolding parse_ipv4
parse_leading_zero = refl
