-- ===== src/Tunnel/Session/Tests.antt =====
-- A session whose group moves to the tunnel, with a failed move before it.
use offveil.Prelude.{
  ◌≡◌, refl, true, false, none, some, [], ◌∷◌, codes, In, lookup, insert, has_suffix, ok, err,
}
use offveil.Capture.{default_exclude_prefixes, local_prefixes, bootstrap_exclude_prefixes}
use offveil.Netip.Prefix.{agree, must_parse_prefix}
use offveil.Tunnel.Types.{
  windows, provider_warp, path_tunnel, path_desync, GroupRoute, tunnel, udp, in_suffix,
}
use offveil.Tunnel.Selective.Rules.{is_remote, selective_rules, local_rules}
use offveil.Tunnel.Selective.Routing.{leaves}
use offveil.Tunnel.Selective.Sample.{first_match, params, built, params-built, to_chat, decide}
use offveil.Tunnel.Session.{
  Session, SessionConfig, start_selective, start_paths, launched, launch_failed, no_stage,
  gateway_startup, fail_dial, initial, succeeds, fails, Moved, set_group_path, choose,
}
use offveil.Tunnel.Session.Aligned.{IsAligned}
use offveil.Tunnel.Session.History.{Run, begins, moves, history-IsAligned}
use offveil.Tunnel.Session.Tunnelled.{tunnel_only}

abbrev cfg : SessionConfig
cfg = record {
  tunnel_provider = provider_warp;
  warp_profile = params.warp;
  groups = params.groups;
  group_paths = [];
}

abbrev first : Session
first = record {
  provider = provider_warp;
  has_control = true;
  endpoint = some (codes "162.159.192.1:2408");
  paths = (codes "chat", path_desync) ∷ [];
  groups = codes "chat" ∷ [];
  up = true;
  closed = false;
}

starts : start_selective cfg none true launched ≡ ok first
unfolding start_selective start_paths insert lookup
starts = refl

fails_to_start :
    start_selective cfg none true (launch_failed fail_dial no_stage)
    ≡ err (record { provider = provider_warp; class = fail_dial; stage = gateway_startup })
unfolding start_selective
fails_to_start = refl

abbrev failed_move : Moved
failed_move =
    set_group_path succeeds (fails false) succeeds (codes "chat") path_tunnel first
      (initial first.paths)

abbrev move : Moved
move =
    set_group_path succeeds succeeds succeeds (codes "chat") path_tunnel failed_move.0 failed_move.1

moved : (move.0.paths ≡ (codes "chat", path_tunnel) ∷ []) × (move.1 (codes "chat") udp ≡ tunnel)
unfolding set_group_path insert lookup choose
moved = (refl, refl)

run : Run cfg move.0 move.1
run =
    moves succeeds succeeds succeeds (codes "chat") path_tunnel (λ h. cc h, λ h. cc h, refl)
      (moves succeeds (fails false) succeeds (codes "chat") path_tunnel (λ h. cc h, λ h. cc h, refl)
        (begins none true launched starts))

history-IsAligned_example : IsAligned move.0 move.1
history-IsAligned_example = history-IsAligned run

chat-tunnel : leaves move.1 (decide built.config.rules built.config.final to_chat) ≡ some tunnel
unfolding set_group_path insert lookup choose selective_rules local_rules agree
    default_exclude_prefixes local_prefixes must_parse_prefix bootstrap_exclude_prefixes has_suffix
chat-tunnel = refl

tunnel_only_example :
    (is_remote params.provider ≡ true)
    × ((g : GroupRoute) × In g cfg.groups
        × (first_match.holds (in_suffix g.domain_suffix) to_chat ≡ true)
        × (lookup g.id move.0.paths ≡ some path_tunnel))
tunnel_only_example =
    tunnel_only first_match windows params built to_chat params-built refl run chat-tunnel
