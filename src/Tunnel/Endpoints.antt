-- ===== src/Tunnel/Endpoints.antt =====
-- warp_endpoints.go: the endpoints of WARP that are tried, and the one that is remembered.
pub mod Preflight
mod Tests
use offveil.Prelude.{
  ℕ, Bool, true, false, not, ◌&&◌, Option, none, some, List, [], ◌∷◌, ◌++◌, Text, codes, is_empty,
  any, map, ltb, if◌then◌else◌, text_eq, length, lookup, insert,
}
use offveil.Netip.HostPort.{split_host_port, join_host_port}
use offveil.Tunnel.Types.{WarpProfile, provider_warp}
use offveil.Tunnel.Session.{FailClass, fail_ok, Stage, no_stage}
use offveil.Tunnel.Addresses.{endpoint_host_of}

abbrev pub warp_endpoint_hosts : List Text
warp_endpoint_hosts =
    codes "162.159.192.1"
    ∷ codes "162.159.193.10"
    ∷ codes "162.159.192.7"
    ∷ codes "162.159.193.4"
    ∷ []

-- The ports, as texts.
abbrev pub warp_endpoint_ports : List Text
warp_endpoint_ports = codes "2408" ∷ codes "500" ∷ codes "1701" ∷ codes "4500" ∷ []

abbrev pub is_some : Option (Text × Text) → Bool
is_some none = false
is_some (some x) = true

-- An endpoint that is added: with a host and a port, and not there yet.
unfoldable pub is_new : Text → List Text → Bool
unfolding split_host_port text_eq
is_new endpoint seen =
    not (is_empty endpoint)
    && not (any (text_eq endpoint) seen)
    && is_some (split_host_port endpoint)

-- The endpoints that are added one after the other, behind those that were added before.
unfoldable pub add_all : List Text → List Text → List Text
unfolding is_new
add_all seen [] = []
add_all seen (e ∷ es) =
    let rest = add_all (if is_new e seen then e ∷ seen else seen) es in
    if is_new e seen then e ∷ rest else rest

abbrev pub hosts_of : Option WarpProfile → List Text
hosts_of none = warp_endpoint_hosts
hosts_of (some w) =
    if is_empty w.endpoint_ipv4
    then warp_endpoint_hosts
    else endpoint_host_of w.endpoint_ipv4 ∷ warp_endpoint_hosts

abbrev pub at_ports : List Text → List Text → List Text
at_ports hosts [] = []
at_ports hosts (p ∷ ps) = map (λ h. join_host_port h p) hosts ++ at_ports hosts ps

-- WARPEndpointCandidates.
unfoldable pub warp_endpoint_candidates : Option WarpProfile → Text → List Text
unfolding add_all endpoint_host_of join_host_port
warp_endpoint_candidates profile remembered =
    add_all [] (remembered ∷ at_ports (hosts_of profile) warp_endpoint_ports)

-- How startOne ended for one candidate.
pub data Trial : Type 0 where
  passed : Trial
  missed : FailClass → Stage → Trial

-- EndpointTrial.
pub record EndpointTrial : Type 0 where
  pub endpoint : Text
  pub class : FailClass
  pub stage : Stage

abbrev pub trial_of : Text → Trial → EndpointTrial
trial_of endpoint passed = record { endpoint = endpoint; class = fail_ok; stage = no_stage }
trial_of endpoint (missed class stage) = record {
  endpoint = endpoint;
  class = class;
  stage = stage;
}

abbrev pub pinned : WarpProfile → Text → WarpProfile
pinned w endpoint = record w { endpoint_ipv4 = endpoint }

-- The first result with a profile, in the order in which they come in.
abbrev pub winner : WarpProfile → List (Text × Trial) → Option WarpProfile
winner w [] = none
winner w ((e, passed) ∷ later) = some (pinned w e)
winner w ((e, missed class stage) ∷ later) = winner w later

-- rememberedEndpoint and rememberEndpoint; the file is what can be read of it.
unfoldable pub remembered_endpoint : List (Text × Text) → Text → Option Text
unfolding lookup
remembered_endpoint saved scope = lookup scope saved

abbrev pub or_empty : Option Text → Text
or_empty none = []
or_empty (some e) = e

unfoldable pub remember_endpoint : Text → Text → List (Text × Text) → List (Text × Text)
unfolding insert
remember_endpoint scope endpoint saved =
    insert scope endpoint (if ltb 32 (length saved) then [] else saved)

pub record Preflighted : Type 0 where
  pub profile : Option WarpProfile
  pub trials : List EndpointTrial
  pub saved : List (Text × Text)

abbrev pub remember_winner : Text → Option WarpProfile → List (Text × Text) → List (Text × Text)
remember_winner scope none saved = saved
remember_winner scope (some v) saved = remember_endpoint scope v.endpoint_ipv4 saved

-- The candidates of a preflight.
unfoldable pub preflight_candidates : WarpProfile → Text → List (Text × Text) → List Text
unfolding warp_endpoint_candidates remembered_endpoint
preflight_candidates w scope saved =
    warp_endpoint_candidates (some w) (or_empty (remembered_endpoint saved scope))

-- PreflightWARP, from its candidates on. How startOne ends for each of them is an argument, and so is
-- which of them come in and in which order: the first one that passes ends the budget of the others.
unfoldable pub preflight :
    (Text → Trial) → (List Text → List Text) → WarpProfile → Text → List (Text × Text) → Preflighted
unfolding preflight_candidates remember_endpoint
preflight attempt arrivals w scope saved =
    let results = map (λ e. (e, attempt e)) (arrivals (preflight_candidates w scope saved)) in
    let won = winner w results in
    record {
      profile = won;
      trials = map (λ (e, t). trial_of e t) results;
      saved = remember_winner scope won saved;
    }
