-- ===== src/Lib.antt =====
-- A model of the Go core of offveil (offveil-core), a local protection that works around the
-- filtering of a network, and what its definitions keep to. Names follow the source in antt's
-- spelling, so `startLayer1Locked` is `start_layer`; each file names the source it is about.
--
-- The program. The engine (offveil-core/internal/engine) owns one session at a time. A start loads
-- the signed ruleset (internal/ruleset), captures the adapter, starts the local resolver
-- (internal/dns), measures the network directly, and brings up the TCP layer (a desync helper and a
-- gateway) only where the network filters; a layer that fails leaves the resolver alone in place.
-- A monitor then measures the canary groups of the ruleset through the gateway, and starts at most
-- one repair a round: another desync strategy, a tunnel for one group, or the way back. Dead
-- components are started again within a budget, and a change of the network heals the session.
-- Work outside the lifecycle lock carries the generation of its session and is dropped where that
-- one has ended. The stub of the resolver passes a query to a DoH client with a cache, a circuit
-- breaker and a fallback to plain UDP, and drops known censorship answers.
--
-- The files.
--   Prelude: shared library names, texts as lists of bytes, association lists, clocks.
--   Ruleset: Document (internal/ruleset/types.go, the data), Hosts (names and suffixes), Validate
--     (ParseDocument), Queries (the queries of types.go and match.go).
--   Netip: IPv4 texts as net/netip parses them; its children V6, Prefix, HostPort and Bits have the
--     rest of the addresses and prefixes that the code reads.
--   Netinfo: Info and NormalizeASN of internal/netinfo. Policy: the cache of decisions in
--     internal/policy and the paths by network.
--   Capture: what internal/capture keeps out of the adapter.
--   Probe: internal/probe, the classes of an error, the targets and the verdict of a session.
--   Engine/Signals, Groups, Core: the data of the engine, one field for each field of Engine that
--     decides what it does. A handle stands for the pointer of a session.
--   Engine/Classify: classify.go. Engine/Failures: recovery.go and what counts as a
--     failure. Engine/Status: refreshNetworkStatusLocked, statusLocked and publishOperationLocked.
--     Engine/Monitor: the round of the TCP layer (network_health.go).
--     Engine/Layers: layers.go, applyClassificationLocked and the round without the TCP layer.
--   Engine/Repairs: groups.go, escalation and return. Engine/Strategy: strategy_recovery.go.
--     Engine/Recovery: component_recovery.go.
--   Engine/Lifecycle: startup.go, session.go and internal/cleanup; its child Stop has the ends of a
--     session in engine.go. Engine/Heal: heal.go and network_identity.go. Engine/Expand: expand.go.
--   Engine/Reprobe: silentReprobeSession of engine.go, with the policy cache as a second state.
--   Dns/Message: what the resolver reads of a message. Dns/Poison: poison.go and the filter of
--     plain.go. Dns/Stub: stub.go. Dns/Breaker: the breaker and the endpoints of doh.go.
--     Dns/Cache: doh_cache.go. Dns/Services and Dns/Restore: system.go and restore.go, the settings
--     of macOS, read, given back and, in Dns/Restore/Apply, steered. What networksetup and the file
--     system refuse is an argument; a write that is refused changes nothing, and an address is kept
--     parsed.
--   Diag/Failures: internal/diag/failures.go, the ring of failures.
--   Desync/Args: ValidateStrategyArgs of internal/desync/chain.go, and platform.go. Desync/Chain:
--     the rest of chain.go. Whether the system is macOS is an argument. Desync/Store: store.go.
--     Desync/Scan: the trials of scan.go and its winner.
--   Tunnel/Types, Addresses: the data of internal/tunnel. Tunnel/Selective: the configuration of the
--     gateway (selective_config.go), with its rules, its routing and what is checked in it.
--     Tunnel/Routes: FilterRouteCIDRs of config.go. Tunnel/Session: selective_session.go.
--     Tunnel/Startup, Controls, Providers, Endpoints: startup.go, controls.go, the order of the
--     providers in session.go and warp_endpoints.go.
-- A child that is named for a property holds its proof, and the files called Tests have runs of
-- the code and the uses of the theorems at concrete inputs.
--
-- How it is modelled. A section that the source runs under a lock is one function on the state;
-- what it measures, starts or closes in between is an argument of the next section, so that a
-- theorem about a section holds whatever the machine answered and whatever ran in between. Loops
-- are structural recursion over the lists that they range over or over the attempts that are left.
-- Only the retry of a start in Tunnel/Startup has fuel, for three rounds: the third one never tries
-- again, and a theorem says that they are enough. Instants and
-- durations are natural numbers of nanoseconds, with 0 for the zero instant; a duration since a
-- later instant is 0. Strings are lists of bytes; lower case and equal folds are those of ASCII.
-- Go maps are association lists or, where only their keys matter, lists without repetition. The
-- order in which Go ranges over a map is a choice of the program that no theorem relies on: where
-- several cached answers expire first the model drops one of them. Counters do not wrap.
--
-- What stands outside: the decoding of JSON, of DNS messages and of their signatures, HTTP, UDP and
-- sockets, the processes of the helper and the gateway, adapters and routes, files, the clock, and
-- log lines. Of a session's configuration only what later decisions read is kept, and of the text of
-- an error only which component it names. Reasons that are only shown (healReason, layerReason, the
-- report of a probe) and the IPv6 policy that the engine gives the resolver are left out. The DNS
-- cache and the engine are separate states: a heal resets the cache as one step of its history.
-- sing-box itself is not of this repository: how it matches a rule is a parameter, `Routing`, whose
-- laws are those of its documentation. A prefix is kept parsed, an address of a controller or of a
-- resolver is kept as the host and the port that are read from it, and zones are left out, as are the
-- ports of a tunnel's endpoints. A confidence is a number of hundredths. What the hooks of the
-- cleanup registry close is outside of the engine; which of them were called, and in which order, is kept. The bundles and
-- the platform code are not modelled.
pub mod Capture
pub mod Desync
pub mod Diag
pub mod Dns
pub mod Engine
pub mod Netinfo
pub mod Netip
pub mod Policy
pub mod Prelude
pub mod Probe
pub mod Ruleset
pub mod Tunnel
