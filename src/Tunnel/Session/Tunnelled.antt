-- ===== src/Tunnel/Session/Tunnelled.antt =====
-- The session together with the gateway that it runs: what may leave by the tunnel, at any time.
use offveil.Prelude.{
  ◌≡◌, refl, sym, ap, ◌∙◌, inl, inr, Bool, true, false, some, In, lookup, ok, Option-cases,
  Bool-cases,
}
use offveil.Tunnel.Types.{
  System, BuildParams, SingBoxBuild, GroupRoute, Network, tcp, udp, tunnel, path_tunnel, in_suffix,
}
use offveil.Tunnel.Selective.{build_selective_config}
use offveil.Tunnel.Selective.Rules.{default_of, is_remote, routed_groups}
use offveil.Tunnel.Selective.Routing.{Routing, leaves}
use offveil.Tunnel.Selective.Built.{build-Proxied}
use offveil.Tunnel.Session.{Session, SessionConfig, Selectors, path_text}
use offveil.Tunnel.Session.History.{Run, history-IsAligned, Run-Has}

tunnel-side : (b : Bool) (n : Network) → default_of b n ≡ tunnel → b ≡ true
tunnel-side true n h = refl
tunnel-side false tcp h = cc
tunnel-side false udp h = cc

routed-In :
    (p : BuildParams) (g : GroupRoute)
    → In g (routed_groups p)
    → In g p.groups × (is_remote p.provider ≡ true)
routed-In p g i = elim (Bool-cases (is_remote p.provider)) [
  | inl e ↦ (rw e at i, e)
  | inr e ↦ absurd (rw e at i)
]

-- After any history of a session in which no call for a group failed with its selector switched all the
-- same, and each undo of a TCP selector succeeded, a connection leaves by the tunnel only if its
-- name is under the suffixes of a listed group whose path in the session is the tunnel, and the gateway has a
-- remote provider.
pub tunnel_only :
    {Conn : Type 0} (G : Routing Conn) (system : System) (p : BuildParams) (b : SingBoxBuild)
    (c : Conn) {cfg : SessionConfig} {s : Session} {selectors : Selectors}
    → build_selective_config system p ≡ ok b
    → p.groups ≡ cfg.groups
    → Run cfg s selectors
    → leaves selectors (G.decide b.config.rules b.config.final c) ≡ some tunnel
    → (is_remote p.provider ≡ true)
      × ((g : GroupRoute) × In g cfg.groups
          × (G.holds (in_suffix g.domain_suffix) c ≡ true)
          × (lookup g.id s.paths ≡ some path_tunnel))
tunnel_only G system p b c {s = s} {selectors = selectors} h same run l =
    let (tun, k, outside, proxied) =
      build-Proxied G system p b selectors c tunnel h (λ x. cc x) l in
    elim proxied [
      | inr (w, n) ↦ cc
      | inl (g, i, (routed, under, chosen)) ↦
          let (listed, remote) = routed-In p g i in
          let here = rw same at listed in
          (
            remote,
            elim (Option-cases (lookup g.id s.paths)) [
              | inl e ↦ absurd (Run-Has g here run e)
              | inr (path, e) ↦
                  let (b, q, f) = history-IsAligned run g.id path e in
                  let on = tunnel-side b (G.network c) (sym (f (G.network c)) ∙ chosen) in
                  (g, here, under, e ∙ ap some (q ∙ ap path_text on))
            ],
          )
    ]
