-- ===== src/Capture/Tests.antt =====
-- The split default and prefixes around the exclusions.
use offveil.Prelude.{◌≡◌, refl, true, false, none, some, List, [], ◌∷◌, codes, All, map, ◌==◌, In}
use offveil.Netip.{Addr}
use offveil.Netip.Prefix.{Prefix, must_parse_prefix, contains_addr, agree, masked, overlaps}
use offveil.Capture.{
  filter_allowlist, default_exclude_prefixes, is_excluded, canonical_prefix, may_capture, is_seen,
  select_from, is_special, local_prefixes, bootstrap_exclude_prefixes,
}
use offveil.Capture.Selected.{filter_allowlist_lem}

abbrev candidates : List Prefix
candidates = map must_parse_prefix (
    codes "0.0.0.0/0"
    ∷ codes "104.16.1.9/12"
    ∷ codes "104.16.0.0/12"
    ∷ codes "::ffff:104.32.0.0/108"
    ∷ codes "9.9.9.0/24"
    ∷ codes "10.1.2.0/24"
    ∷ codes "2a00::/16"
    ∷ [])

-- The default route, a double, a prefix with a resolver in it and a private one are left out.
selected :
    filter_allowlist candidates none
    ≡ map must_parse_prefix (codes "104.16.0.0/12" ∷ codes "104.32.0.0/12" ∷ codes "2a00::/16" ∷ [])
unfolding filter_allowlist select_from canonical_prefix may_capture is_excluded is_special overlaps
    agree masked must_parse_prefix default_exclude_prefixes local_prefixes
    bootstrap_exclude_prefixes
selected = refl

filter_allowlist_lem_example :
    All
      (λ p.
        ((p.bits == 0) ≡ false)
        × ((e : Prefix) (a : Addr)
            → In e default_exclude_prefixes
            → contains_addr p a ≡ true
            → contains_addr e a ≡ false))
      (filter_allowlist candidates none)
    × ((c p : Prefix)
        → In c candidates
        → canonical_prefix c ≡ some p
        → may_capture default_exclude_prefixes p ≡ true
        → is_seen p (filter_allowlist candidates none) ≡ true)
filter_allowlist_lem_example = filter_allowlist_lem candidates none
