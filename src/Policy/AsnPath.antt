-- ===== src/Policy/AsnPath.antt =====
-- The last path that worked on each network, kept over restarts: offveil-core/internal/policy/asn_path.go. A write to
-- the file is the list of entries that it would hold.
use offveil.Prelude.{
  ℕ, ◌+◌, ◌-◌, ◌*◌, ◌||◌, List, [], Option, none, some, Text, codes, text_eq, is_empty, ltb,
  if◌then◌else◌, lookup, insert, delete, hour,
}
use offveil.Netinfo.{unknown_name}

abbrev pub asn_path_ttl : ℕ
asn_path_ttl = 7 * 24 * hour

-- ASNPathEntry.
pub record AsnPathEntry : Type 0 where
  pub asn : Text
  pub path : Text
  pub updated_at : ℕ

-- ASNPathStore: the entries, and how often they were written to the file.
pub record AsnPathStore : Type 0 where
  pub entries : List (Text × AsnPathEntry)
  pub saves : ℕ

-- normalizeASNKey.
unfoldable pub normalize_asn_key : Text → Text
normalize_asn_key asn =
    if is_empty asn || text_eq asn unknown_name || text_eq asn (codes "UNKNOWN")
    then unknown_name
    else asn

-- OpenASNPathStore; `stored` is what the file holds, none if it is missing or empty.
abbrev pub open_asn_path_store : Option (List (Text × AsnPathEntry)) → AsnPathStore
open_asn_path_store none = record { entries = []; saves = 0 }
open_asn_path_store (some es) = record { entries = es; saves = 0 }

-- saveLocked.
abbrev pub save : AsnPathStore → AsnPathStore
save s = record s { saves = s.saves + 1 }

abbrev path_or_none : Text → Option Text
path_or_none path = if is_empty path then none else some path

abbrev pub found_path : Text → ℕ → Option AsnPathEntry → AsnPathStore → AsnPathStore × Option Text
found_path asn now none s = (s, none)
found_path asn now (some e) s =
    if ltb asn_path_ttl (now - e.updated_at)
    then (save (record s { entries = delete asn s.entries }), none)
    else (s, path_or_none e.path)

-- Lookup.
unfoldable pub path_for_asn : Text → ℕ → AsnPathStore → AsnPathStore × Option Text
path_for_asn asn now s =
    let key = normalize_asn_key asn in found_path key now (lookup key s.entries) s

-- Put.
unfoldable pub put_asn_path : Text → Text → ℕ → AsnPathStore → AsnPathStore
put_asn_path asn path now s =
    let key = normalize_asn_key asn in
    if is_empty path
    then s
    else save (record s {
      entries = insert key (record { asn = key; path = path; updated_at = now }) s.entries;
    })
