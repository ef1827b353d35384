-- ===== src/Ruleset/Hosts.antt =====
-- Host names of the ruleset: offveil-core/internal/ruleset/types.go, normalizeHost to validHostname.
-- Texts are lists of bytes. ToLower and TrimSpace are those of ASCII texts.
use offveil.Prelude.{
  ℕ, ◌≡◌, refl, Bool, true, false, not, ◌&&◌, ◌||◌, List, [], ◌∷◌, none, some, Text, codes,
  is_empty, length, leb, ltb, ◌==◌, if◌then◌else◌, split, contains, all, any, to_lower, trim_space,
  trim_prefix, trim_left, trim_suffix, has_suffix, text_eq, last_or,
}
use offveil.Netip.{parse_ipv4}

abbrev is_dot : ℕ → Bool
is_dot c = c == b'.'

unfoldable pub normalize_host : Text → Text
unfolding to_lower trim_space trim_prefix trim_left trim_suffix
normalize_host host =
    let host = to_lower (trim_space host) in
    let host = trim_prefix host (codes "*.") in
    let host = trim_left is_dot host in trim_suffix host (codes ".")

-- `seen[host]`.
abbrev pub member : Text → List Text → Bool
member h seen = any (λ s. text_eq s h) seen

-- The loop of uniqueHosts; `seen` holds the hosts already appended to `out`.
unfoldable pub unique_from : List Text → List Text → List Text
unfolding text_eq
unique_from seen [] = []
unique_from seen (raw ∷ hosts) =
    let host = normalize_host raw in
    let fresh = host ∷ unique_from (host ∷ seen) hosts in
    let rest = unique_from seen hosts in
    if not (is_empty host) && not (member host seen) then fresh else rest

unfoldable pub unique_hosts : List Text → List Text
unfolding unique_from
unique_hosts hosts = unique_from [] hosts

-- The bytes of a label; a byte outside ASCII belongs to no rune that Go's loop accepts.
unfoldable pub label_char : ℕ → Bool
label_char c = (leb b'a' c && leb c b'z') || (leb b'0' c && leb c b'9') || c == b'-'

abbrev pub first_or : ℕ → Text → ℕ
first_or d [] = d
first_or d (c ∷ s) = c

unfoldable pub valid_label : Text → Bool
unfolding label_char
valid_label label =
    not (
      is_empty label
      || ltb 63 (length label)
      || first_or 0 label == b'-'
      || last_or 0 label == b'-')
    && all label_char label

-- An IPv6 literal, which ParseAddr accepts too, has a colon, and no label has one: of the addresses
-- only the IPv4 literals need the first test.
unfoldable pub valid_hostname : Text → Bool
unfolding valid_label split contains parse_ipv4
valid_hostname host = elim (parse_ipv4 host) [
  | some addr ↦ false
  | none ↦
      if ltb 253 (length host) || not (contains b'.' host)
      then false
      else all valid_label (split b'.' host)
]

-- MatchSuffix: the host is a suffix or a subdomain of one.
unfoldable pub covers : Text → Text → Bool
unfolding has_suffix text_eq
covers host suffix =
    not (is_empty suffix) && (text_eq host suffix || has_suffix host (b'.' ∷ suffix))

unfoldable pub match_suffix : Text → List Text → Bool
unfolding covers
match_suffix host suffixes = any (λ s. covers (normalize_host host) (normalize_host s)) suffixes

normalize_wildcard : normalize_host (codes " *.Example.COM. ") ≡ codes "example.com"
unfolding normalize_host
normalize_wildcard = refl

valid_example : valid_hostname (codes "www.example.com") ≡ true
unfolding valid_hostname
valid_example = refl

valid_address : valid_hostname (codes "10.0.0.1") ≡ false
unfolding valid_hostname
valid_address = refl

unique_example :
    unique_hosts (codes "B.org" ∷ codes "a.org" ∷ codes "*.b.org" ∷ codes "." ∷ [])
    ≡ codes "b.org" ∷ codes "a.org" ∷ []
unfolding unique_hosts normalize_host
unique_example = refl
