-- ===== src/Capture.antt =====
-- offveil-core/internal/capture/exclude.go: which prefixes may be routed into the adapter.
pub mod Selected
mod Tests
use offveil.Prelude.{
  ℕ, zero, suc, ◌-◌, Bool, true, false, not, ◌&&◌, ◌||◌, Option, none, some, List, [], ◌∷◌, ◌++◌,
  Text, codes, leb, ltb, ◌==◌, if◌then◌else◌, any, map,
}
use offveil.Netip.{Addr, v4, v6}
use offveil.Netip.Prefix.{
  Prefix, masked, is_valid, contains_addr, overlaps, prefix_eq, is_4in6, unmap, is_loopback,
  is_private, is_link_local, is_multicast, is_unspecified, must_parse_prefix,
}

-- BootstrapExcludePrefixes.
unfoldable pub bootstrap_exclude_prefixes : List Prefix
bootstrap_exclude_prefixes = map must_parse_prefix (
    codes "1.1.1.1/32"
    ∷ codes "1.0.0.1/32"
    ∷ codes "8.8.8.8/32"
    ∷ codes "8.8.4.4/32"
    ∷ codes "9.9.9.9/32"
    ∷ codes "149.112.112.112/32"
    ∷ codes "2606:4700:4700::1111/128"
    ∷ codes "2606:4700:4700::1001/128"
    ∷ codes "2001:4860:4860::8888/128"
    ∷ codes "2001:4860:4860::8844/128"
    ∷ codes "2620:fe::fe/128"
    ∷ codes "2620:fe::9/128"
    ∷ [])

-- The local prefixes of DefaultExcludePrefixes.
unfoldable pub local_prefixes : List Prefix
local_prefixes = map must_parse_prefix (
    codes "0.0.0.0/8"
    ∷ codes "127.0.0.0/8"
    ∷ codes "10.0.0.0/8"
    ∷ codes "172.16.0.0/12"
    ∷ codes "192.168.0.0/16"
    ∷ codes "169.254.0.0/16"
    ∷ codes "224.0.0.0/4"
    ∷ codes "240.0.0.0/4"
    ∷ codes "255.255.255.255/32"
    ∷ codes "::/128"
    ∷ codes "::1/128"
    ∷ codes "fc00::/7"
    ∷ codes "fe80::/10"
    ∷ codes "ff00::/8"
    ∷ [])

unfoldable pub default_exclude_prefixes : List Prefix
default_exclude_prefixes = local_prefixes ++ bootstrap_exclude_prefixes

-- The classes of IsExcluded.
unfoldable pub is_special : Addr → Bool
is_special a =
    is_loopback a || is_private a || is_link_local a || is_multicast a || is_unspecified a

-- IsExcluded, on a valid address.
unfoldable pub is_excluded : Addr → List Prefix → Bool
unfolding is_special
is_excluded a excludes = is_special (unmap a) || any (λ p. contains_addr p (unmap a)) excludes

-- An IPv4 prefix that is written as IPv6 becomes one of IPv4.
abbrev pub as_ipv4 : Prefix → Option Prefix
as_ipv4 p =
    if is_4in6 p.addr
    then (if ltb p.bits 96 then none else some (record { addr = unmap p.addr; bits = p.bits - 96 }))
    else some p

abbrev pub no_default : Option Prefix → Option Prefix
no_default none = none
no_default (some p) = if p.bits == 0 then none else some p

-- The prefix in the form in which it is compared; none for an invalid one and a default route.
unfoldable pub canonical_prefix : Prefix → Option Prefix
unfolding masked
canonical_prefix p = if is_valid p then no_default (as_ipv4 (masked p)) else none

-- Whether a prefix may be selected.
unfoldable pub may_capture : List Prefix → Prefix → Bool
unfolding is_excluded overlaps
may_capture excludes p = not (is_excluded p.addr excludes) && not (any (λ e. overlaps e p) excludes)

abbrev pub is_seen : Prefix → List Prefix → Bool
is_seen p seen = any (prefix_eq p) seen

abbrev pub wanted : List Prefix → List Prefix → Option Prefix → Option Prefix
wanted excludes seen none = none
wanted excludes seen (some p) =
    if may_capture excludes p && not (is_seen p seen) then some p else none

abbrev pub extend : Option Prefix → List Prefix → List Prefix
extend none seen = seen
extend (some p) seen = p ∷ seen

-- The loop, with the prefixes that were selected before.
unfoldable pub select_from : List Prefix → List Prefix → List Prefix → List Prefix
unfolding canonical_prefix
select_from excludes seen [] = []
select_from excludes seen (c ∷ cs) =
    let chosen = wanted excludes seen (canonical_prefix c) in
    extend chosen (select_from excludes (extend chosen seen) cs)

abbrev pub excludes_or : Option (List Prefix) → List Prefix
excludes_or none = default_exclude_prefixes
excludes_or (some ps) = ps

-- FilterAllowlist.
unfoldable pub filter_allowlist : List Prefix → Option (List Prefix) → List Prefix
unfolding select_from
filter_allowlist candidates excludes = select_from (excludes_or excludes) [] candidates
