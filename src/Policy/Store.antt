-- ===== src/Policy/Store.antt =====
-- The policy cache: offveil-core/internal/policy/store.go. The methods that read the clock have it as an argument.
pub mod Refinement
mod Tests
use offveil.Prelude.{
  ℕ, ◌+◌, ◌-◌, ◌*◌, ◌≡◌, Bool, true, false, not, ◌&&◌, ◌||◌, List, [], ◌∷◌, Option, none, some,
  Text, codes, text_eq, is_empty, ltb, leb, ◌==◌, if◌then◌else◌, lookup, insert, delete, minute,
  hour,
}
use offveil.Netinfo.{Network, unknown_name, normalize_asn}

abbrev pub path_direct : Text
path_direct = codes "direct"

abbrev pub path_desync : Text
path_desync = codes "desync"

abbrev pub path_tunnel : Text
path_tunnel = codes "tunnel"

-- Entry without its key, which no reader uses.
pub record Entry : Type 0 where
  pub domain : Text
  pub path : Text
  pub class : Text
  pub strategy_id : Text
  pub updated_at : ℕ
  pub ttl : ℕ

pub record Store : Type 0 where
  pub entries : List (Text × Entry)
  pub asn : Text
  pub isp_hint : Text
  pub fingerprint : Text

-- NewStore.
abbrev pub new_store : Store
new_store = record { entries = []; asn = unknown_name; isp_hint = []; fingerprint = [] }

abbrev fingerprint_or : Text → Text
fingerprint_or fp = if is_empty fp then unknown_name else fp

-- Two identifications that are both there and differ.
abbrev pub differ : Text → Text → Text → Bool
differ absent old new =
    not (is_empty old)
    && not (text_eq old absent)
    && not (text_eq new absent)
    && not (text_eq old new)

-- Whether an observation makes the decisions void; the first one does not.
unfoldable pub is_changed : Text → Text → Store → Bool
is_changed asn fp s =
    not (is_empty s.fingerprint && text_eq s.asn unknown_name)
    && (differ unknown_name s.asn asn || differ (codes "offline") s.fingerprint fp)

abbrev adopt : Bool → Network → Text → Text → Store → Store
adopt changed net asn fp s = record {
  entries = if changed then [] else s.entries;
  asn = asn;
  isp_hint = if is_empty net.isp_hint then s.isp_hint else net.isp_hint;
  fingerprint = fp;
}

-- ObserveNetwork.
unfoldable pub observe_network : Network → Store → Store × Bool
unfolding is_changed
observe_network net s =
    let asn = normalize_asn net.asn in
    let fp = fingerprint_or net.fingerprint in
    let changed = is_changed asn fp s in (adopt changed net asn fp s, changed)

-- Invalidate.
abbrev pub invalidate : Store → Store
invalidate s = record s { entries = [] }

abbrev one_of : Text → List Text → Bool
one_of t [] = false
one_of t (u ∷ us) = text_eq t u || one_of t us

abbrev path_ttl : Text → ℕ
path_ttl path = if one_of path (path_tunnel ∷ path_desync ∷ []) then 6 * hour else 24 * hour

-- TTLFor.
unfoldable pub ttl_for : Text → Text → ℕ
ttl_for path class =
    if text_eq class (codes "retry")
    then 15 * minute
    else if text_eq class (codes "timeout")
    then 30 * minute
    else if text_eq class (codes "throttle_suspect")
    then hour
    else if one_of class (codes "dpi_reset" ∷ codes "ssl_err" ∷ codes "dns_poison" ∷ [])
    then 6 * hour
    else if text_eq class (codes "ip_drop")
    then 2 * hour
    else path_ttl path

-- The entry that putLocked stores; an instant of 0 stands for the present one.
abbrev pub entry_of : Text → Text → Text → Text → ℕ → ℕ → ℕ → Entry
entry_of domain path class strategy_id at ttl now = record {
  domain = domain;
  path = path;
  class = class;
  strategy_id = strategy_id;
  updated_at = if at == 0 then now else at;
  ttl = if ttl == 0 then ttl_for path class else ttl;
}

-- putLocked.
unfoldable pub put_locked : Text → Text → Text → Text → ℕ → ℕ → ℕ → Store → Store
put_locked domain path class strategy_id at ttl now s = record s {
  entries = insert domain (entry_of domain path class strategy_id at ttl now) s.entries;
}

-- Put and PutWithTTL.
abbrev pub put : Text → Text → Text → Text → ℕ → Store → Store
put domain path class strategy_id now = put_locked domain path class strategy_id now 0 now

abbrev pub put_with_ttl : Text → Text → Text → Text → ℕ → ℕ → Store → Store
put_with_ttl domain path class strategy_id ttl now =
    put_locked domain path class strategy_id now ttl now

-- The class under which a failure of the helper is kept.
abbrev class_of : Text → Text
class_of class = if text_eq class (codes "reset") then codes "dpi_reset" else class

-- FailSignal of internal/desync and of internal/tunnel; `via` is the strategy or the provider.
pub record FailSignal : Type 0 where
  pub target : Text
  pub class : Text
  pub via : Text
  pub at : ℕ

-- OnDesyncFail, OnDesyncOK, OnTunnelOK and OnTunnelFail.
abbrev pub on_desync_fail : FailSignal → ℕ → Store → Store
on_desync_fail sig now = put_locked sig.target path_tunnel (class_of sig.class) sig.via sig.at 0 now

abbrev pub on_desync_ok : Text → Text → ℕ → Store → Store
on_desync_ok target strategy_id now =
    put_locked target path_desync (codes "open") strategy_id now 0 now

abbrev pub on_tunnel_ok : Text → Text → ℕ → Store → Store
on_tunnel_ok target provider_id now =
    put_locked target path_tunnel (codes "open") provider_id now 0 now

abbrev pub on_tunnel_fail : FailSignal → ℕ → Store → Store
on_tunnel_fail sig now = put_locked sig.target path_tunnel (codes "retry") sig.via sig.at 0 now

-- The test of Lookup, ExpiredDomains and Domains.
abbrev pub is_expired : ℕ → Entry → Bool
is_expired now e = ltb 0 e.ttl && ltb e.ttl (now - e.updated_at)

abbrev pub look : Text → ℕ → Option Entry → Store → Store × Option Entry
look domain now none s = (s, none)
look domain now (some e) s =
    if is_expired now e then (record s { entries = delete domain s.entries }, none) else (s, some e)

-- Lookup.
unfoldable pub look_up : Text → ℕ → Store → Store × Option Entry
look_up domain now s = look domain now (lookup domain s.entries) s

-- The entries that have expired by now, or those that have not.
abbrev pub sift : Bool → ℕ → List (Text × Entry) → List (Text × Entry)
sift expired now [] = []
sift expired now ((d, e) ∷ es) =
    let rest = sift expired now es in
    if (if expired then is_expired now e else not (is_expired now e)) then (d, e) ∷ rest else rest

abbrev pub keys : List (Text × Entry) → List Text
keys [] = []
keys ((d, e) ∷ es) = d ∷ keys es

-- ExpiredDomains.
unfoldable pub expired_domains : ℕ → Store → Store × List Text
expired_domains now s =
    (record s { entries = sift false now s.entries }, keys (sift true now s.entries))

-- Domains.
unfoldable pub domains : ℕ → Store → List Text
domains now s = keys (sift false now s.entries)

abbrev hint_of : Option Entry → Text
hint_of none = []
hint_of (some e) = e.path

-- HintFor.
unfoldable pub hint_for : Text → ℕ → Store → Store × Text
unfolding look_up
hint_for domain now s = let (s', found) = look_up domain now s in (s', hint_of found)
