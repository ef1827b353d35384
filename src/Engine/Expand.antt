-- ===== src/Engine/Expand.antt =====
-- The count of observed DNS demand: offveil-core/internal/engine/expand.go.
pub mod Seen
mod Tests
use offveil.Prelude.{
  ℕ, ◌≡◌, Bool, true, false, not, ◌&&◌, ◌||◌, List, [], ◌∷◌, Option, none, some, Text, codes,
  is_empty, length, ltb, leb, split, contains, has_suffix, trim_suffix, to_lower, trim_space, all,
  if◌then◌else◌,
}
use offveil.Ruleset.Hosts.{member, valid_label}
use offveil.Engine.Core.{Engine}

abbrev pub expand_max_hosts : ℕ
expand_max_hosts = 128

-- The tests of normalizeExpandHost; the loop over the labels is the one of validHostname.
unfoldable pub is_expandable : Text → Bool
is_expandable host =
    not (
      is_empty host
      || ltb 253 (length host)
      || not (contains b'.' host)
      || has_suffix host (codes ".arpa")
      || has_suffix host (codes ".local"))
    && all valid_label (split b'.' host)

abbrev pub canonical : Text → Text
canonical host = trim_suffix (to_lower (trim_space host)) (codes ".")

-- normalizeExpandHost.
unfoldable pub normalize_expand_host : Text → Option Text
unfolding is_expandable
normalize_expand_host host = let h = canonical host in if is_expandable h then some h else none

-- `e.expandSeen[host] = struct{}{}`, a set.
abbrev pub see : Text → List Text → List Text
see host seen = if member host seen then seen else host ∷ seen

unfoldable pub observe_host : Text → Engine → Engine
observe_host host e =
    if not e.protection || leb expand_max_hosts (length e.expand_seen)
    then e
    else record e { expand_seen = see host e.expand_seen }

-- observeDNSQuery; `locked` says that another operation holds the lock.
abbrev pub observe_normal : Bool → Option Text → Engine → Engine
observe_normal locked none e = e
observe_normal true (some h) e = e
observe_normal false (some h) e = observe_host h e

unfoldable pub observe_dns_query : Bool → Text → Engine → Engine
observe_dns_query locked host e = observe_normal locked (normalize_expand_host host) e

-- expandInfoLocked.
unfoldable pub expand_info : Engine → Option ℕ
expand_info e = if is_empty e.expand_seen then none else some (length e.expand_seen)
