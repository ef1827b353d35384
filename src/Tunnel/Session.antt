-- ===== src/Tunnel/Session.antt =====
-- selective_session.go: the session of the selective gateway and the paths of its groups.
pub mod Aligned
pub mod History
pub mod Tunnelled
mod Tests
use offveil.Prelude.{
  ℕ, Bool, true, false, not, ◌&&◌, ◌||◌, Option, none, some, List, [], ◌∷◌, ◌≡◌, refl, Text,
  is_empty, any, if◌then◌else◌, text_eq, lookup, insert, Result, ok, err, codes,
}
use offveil.Tunnel.Types.{
  ProviderId, provider_warp, provider_reality, provider_desync, path_desync, path_tunnel,
  GroupRoute, WarpProfile, RealityCredentials, Network, tcp, udp, Tag, direct, desync, tunnel,
}
use offveil.Tunnel.Selective.Rules.{is_remote, default_of, path_is_tunnel, text_is}

-- FailClass of the tunnel.
pub data FailClass : Type 0 where
  fail_ok fail_timeout fail_dial fail_auth fail_probe fail_eof fail_reset : FailClass
  fail_refused fail_certificate fail_config : FailClass

pub data Stage : Type 0 where
  no_stage configuration gateway_startup : Stage
  at_stage : Text → Stage

-- ProviderFailure by its provider, class and stage: what a failed start reports.
pub record ProviderFailure : Type 0 where
  pub provider : ProviderId
  pub class : FailClass
  pub stage : Stage

-- What startSelective reads of its configuration.
pub record SessionConfig : Type 0 where
  pub tunnel_provider : ProviderId
  pub warp_profile : Option WarpProfile
  pub groups : List GroupRoute
  pub group_paths : List (Text × Text)

pub record Session : Type 0 where
  pub provider : ProviderId
  pub has_control : Bool
  pub endpoint : Option Text
  pub paths : List (Text × Text)
  pub groups : List Text
  pub up : Bool
  pub closed : Bool

-- How startOne ended: the class and stage of its error, and whether the gateway is up.
pub data Launch : Type 0 where
  launched : Launch
  not_up : FailClass → Launch
  launch_failed : FailClass → Stage → Launch

-- The provider of the gateway; `reality` is what LoadRealityCredentials returned.
abbrev pub provider_of :
    SessionConfig → Option RealityCredentials → ProviderId → Result ProviderFailure ProviderId
provider_of cfg reality provider_desync = ok provider_desync
provider_of cfg reality provider_warp = if_some cfg.warp_profile
  where
    if_some : Option WarpProfile → Result ProviderFailure ProviderId
    if_some none =
        err (record { provider = provider_warp; class = fail_config; stage = configuration })
    if_some (some w) = ok provider_warp
provider_of cfg none provider_reality =
    err (record { provider = provider_reality; class = fail_config; stage = configuration })
provider_of cfg (some r) provider_reality = ok provider_reality

abbrev pub path_text : Bool → Text
path_text true = path_tunnel
path_text false = path_desync

-- The path that each group starts on.
unfoldable pub start_paths :
    ProviderId → List (Text × Text) → List GroupRoute → List (Text × Text) → List (Text × Text)
unfolding insert lookup text_eq
start_paths provider wanted [] paths = paths
start_paths provider wanted (g ∷ gs) paths =
    start_paths provider wanted gs
      (insert g.id (path_text (is_remote provider && path_is_tunnel wanted g.id)) paths)

abbrev ids : List GroupRoute → List Text
ids [] = []
ids (g ∷ gs) = g.id ∷ ids gs

abbrev endpoint_of : ProviderId → Option WarpProfile → Option Text
endpoint_of provider none = none
endpoint_of provider (some w) = if is_remote provider then some w.endpoint_ipv4 else none

abbrev stage_or : Stage → Stage
stage_or no_stage = gateway_startup
stage_or s = s

abbrev pub started : SessionConfig → Launch → ProviderId → Result ProviderFailure Session
started cfg launched provider = ok (record {
  provider = provider;
  has_control = is_remote provider;
  endpoint = endpoint_of provider cfg.warp_profile;
  paths = start_paths provider cfg.group_paths cfg.groups [];
  groups = ids cfg.groups;
  up = true;
  closed = false;
})
started cfg (not_up class) provider =
    err (record { provider = provider; class = class; stage = gateway_startup })
started cfg (launch_failed class stage) provider =
    err (record { provider = provider; class = class; stage = stage_or stage })

abbrev pub with_control :
    Bool → SessionConfig → Launch → ProviderId → Result ProviderFailure Session
with_control control cfg outcome provider =
    if is_remote provider && not control
    then err (record { provider = provider; class = fail_config; stage = configuration })
    else started cfg outcome provider

abbrev pub then_start :
    Bool
    → SessionConfig
    → Launch
    → Result ProviderFailure ProviderId
    → Result ProviderFailure Session
then_start control cfg outcome (err failure) = err failure
then_start control cfg outcome (ok provider) = with_control control cfg outcome provider

-- startSelective; `control` says whether newClashControl found a port and a secret.
unfoldable pub start_selective :
    SessionConfig → Option RealityCredentials → Bool → Launch → Result ProviderFailure Session
unfolding start_paths
start_selective cfg reality control outcome =
    then_start control cfg outcome (provider_of cfg reality cfg.tunnel_provider)

-- What the selectors of the gateway's process have chosen.
abbrev pub Selectors : Type 0
Selectors = Text → Network → Tag

-- Those of a gateway that was built with these paths.
abbrev pub initial : List (Text × Text) → Selectors
initial paths id network = default_of (path_is_tunnel paths id) network

abbrev pub same_network : Network → Network → Bool
same_network tcp tcp = true
same_network udp udp = true
same_network _ _ = false

unfoldable pub choose : Text → Network → Tag → Selectors → Selectors
unfolding text_eq
choose id n t selectors j m = if text_eq id j && same_network n m then t else selectors j m

-- How a call of selectOutbound ends; a failed one may have switched the selector before it failed.
pub data Call : Type 0 where
  succeeds : Call
  fails : Bool → Call

abbrev has_switched : Call → Bool
has_switched succeeds = true
has_switched (fails did) = did

-- selectOutbound.
abbrev pub select_outbound : Call → Text → Network → Tag → Selectors → Selectors
select_outbound call id n t selectors =
    if has_switched call then choose id n t selectors else selectors

pub data PathError : Type 0 where
  canceled unknown_group no_tunnel unknown_path selector_failed : PathError

-- The session, the selectors, and the error.
abbrev pub Moved : Type 0
Moved = Session × Selectors × Option PathError

abbrev pub commit : Text → Text → Session → Session
commit group path s = record s { paths = insert group path s.paths }

abbrev pub other_side : Bool → Network → Tag
other_side to_tunnel n = default_of (not to_tunnel) n

-- The calls for a path that is the tunnel or not, and the commit.
abbrev pub switch : Call → Call → Call → Bool → Text → Session → Selectors → Moved
switch (fails did) second undo to_tunnel group s selectors = (
  s,
  select_outbound (fails did) group tcp (default_of to_tunnel tcp) selectors,
  some selector_failed,
)
switch succeeds (fails did) undo to_tunnel group s selectors =
    let one = select_outbound succeeds group tcp (default_of to_tunnel tcp) selectors in
    let two = select_outbound (fails did) group udp (default_of to_tunnel udp) one in
    (s, select_outbound undo group tcp (other_side to_tunnel tcp) two, some selector_failed)
switch succeeds succeeds undo to_tunnel group s selectors =
    let one = select_outbound succeeds group tcp (default_of to_tunnel tcp) selectors in
    (
      commit group (path_text to_tunnel) s,
      select_outbound succeeds group udp (default_of to_tunnel udp) one,
      none,
    )

abbrev pub path_or_empty : Option Text → Text
path_or_empty none = []
path_or_empty (some p) = p

-- SetGroupPath; the three calls are those of TCP, of UDP, and the one that undoes the first.
unfoldable pub set_group_path : Call → Call → Call → Text → Text → Session → Selectors → Moved
unfolding lookup text_eq
set_group_path first second undo group path s selectors =
    if s.closed
    then (s, selectors, some canceled)
    else if not (any (text_eq group) s.groups)
    then (s, selectors, some unknown_group)
    else if text_eq (path_or_empty (lookup group s.paths)) path
    then (s, selectors, none)
    else if not (is_remote s.provider) || not s.has_control
    then (s, selectors, some no_tunnel)
    else if text_eq path path_tunnel
    then switch first second undo true group s selectors
    else if text_eq path path_desync
    then switch first second undo false group s selectors
    else (s, selectors, some unknown_path)

-- Close.
unfoldable pub close : Session → Session
close s = if s.closed then s else record s { closed = true; up = false }

-- TunnelAvailable.
unfoldable pub tunnel_available : Session → Bool
tunnel_available s = not s.closed && is_remote s.provider

-- Info, as far as it decides: whether the gateway is up, `running` being its process, and its endpoint.
abbrev pub info_up : Bool → Session → Bool
info_up running s = s.up && running && not s.closed
