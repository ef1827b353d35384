-- ===== src/Netinfo.antt =====
-- What the core knows of the network it is on: Info and NormalizeASN of
-- offveil-core/internal/netinfo/netinfo.go. The lookups over HTTP and DNS are arguments elsewhere.
use offveil.Prelude.{
  Text, codes, is_empty, text_eq, to_upper, trim_space, trim_prefix, if◌then◌else◌,
}

-- Info without the public address.
pub record Network : Type 0 where
  pub asn : Text
  pub isp_hint : Text
  pub fingerprint : Text

abbrev pub unknown_name : Text
unknown_name = codes "unknown"

abbrev upper_asn : Text → Text
upper_asn upper =
    if text_eq upper (codes "UNKNOWN") then unknown_name else trim_prefix upper (codes "AS")

-- NormalizeASN.
unfoldable pub normalize_asn : Text → Text
unfolding text_eq to_upper trim_space trim_prefix
normalize_asn s =
    let t = trim_space s in if is_empty t then unknown_name else upper_asn (to_upper t)
