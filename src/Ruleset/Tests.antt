-- ===== src/Ruleset/Tests.antt =====
-- Runs of the host-name functions, and their theorems at concrete hosts.
use offveil.Prelude.{◌≡◌, refl, ◌↔◌, true, false, List, [], ◌∷◌, Text, codes, is_empty, In}
use offveil.Ruleset.Hosts.{valid_hostname, normalize_host, match_suffix}
use offveil.Ruleset.Canonical.{normalize_host-valid}
use offveil.Ruleset.Sets.{Below, match_suffix_iff}

www : Text
www = codes "www.example.com"

www_valid : valid_hostname www ≡ true
unfolding valid_hostname www
www_valid = refl

normalize_host-valid_example : normalize_host www ≡ www
normalize_host-valid_example = normalize_host-valid www www_valid

abbrev mixed : List Text
mixed = codes "B.org" ∷ codes "a.org" ∷ codes "*.b.org" ∷ codes "." ∷ []

match_suffix_iff_example : (match_suffix www mixed ≡ true) ↔ (
    (s : Text) × In s mixed
    × (is_empty (normalize_host s) ≡ false)
    × Below (normalize_host www) (normalize_host s))
match_suffix_iff_example = match_suffix_iff www mixed

match_subdomain : match_suffix (codes "api.B.org.") mixed ≡ true
unfolding match_suffix normalize_host
match_subdomain = refl

match_label_only : match_suffix (codes "ab.org") (codes "b.org" ∷ []) ≡ false
unfolding match_suffix normalize_host
match_label_only = refl
