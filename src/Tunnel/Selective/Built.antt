-- ===== src/Tunnel/Selective/Built.antt =====
-- What a selective gateway that was built lets through, and when one is built.
use offveil.Prelude.{◌≡◌, ◌≢◌, sym, ap, Option, some, Text, ok, >>=-eq-ok, ok_inj}
use offveil.Netip.Prefix.{Prefix}
use offveil.Tunnel.Types.{System, BuildParams, SingBoxBuild, Tag, direct, Network, BuildError}
use offveil.Tunnel.Selective.Rules.{selective_rules, routed_groups}
use offveil.Tunnel.Selective.Routing.{Routing, leaves, Outside}
use offveil.Tunnel.Selective.Proxied.{Proxied, selective_rules-Proxied}
use offveil.Tunnel.Selective.{
  build_selective_config, tun_prefix, dns_server_of, selector_control, remote_part,
}

-- The parts of a gateway that was built.
built-parts :
    (system : System) (p : BuildParams) (b : SingBoxBuild)
    → build_selective_config system p ≡ ok b
    → (tun : Option Prefix) × (tun_prefix p ≡ ok tun)
      × (b.config.rules ≡ selective_rules p tun)
      × (b.config.final ≡ direct)
unfolding build_selective_config
built-parts system p b h =
    let (tun, t, h1) = >>=-eq-ok (tun_prefix p) _ h in
    let (server, s, h2) = >>=-eq-ok (dns_server_of p p.dns_address) _ h1 in
    let (remote, r, h3) = >>=-eq-ok (remote_part p) _ h2 in
    let (clash, k, h4) = >>=-eq-ok (selector_control p) _ h3 in
    let same = ok_inj {E = BuildError} _ b h4 in
    (tun, t, ap (λ x. x.config.rules) (sym same), ap (λ x. x.config.final) (sym same))

-- A connection leaves a gateway that was built by something else than the direct outbound only
-- if no local rule has caught it: it is no DNS, its destination is not private, not one of the
-- adapter and in no exclusion, and its name is under no excluded suffix. Then it is under the suffixes of a
-- listed group whose selector for its network has chosen that outbound, or it is TCP for the
-- helper. The gateway's process and the choices of the selectors are arbitrary.
pub build-Proxied :
    {Conn : Type 0} (G : Routing Conn) (system : System) (p : BuildParams) (b : SingBoxBuild)
    (choice : Text → Network → Tag) (c : Conn) (t : Tag)
    → build_selective_config system p ≡ ok b
    → t ≢ direct
    → leaves choice (G.decide b.config.rules b.config.final c) ≡ some t
    → (tun : Option Prefix) × (tun_prefix p ≡ ok tun)
      × Outside G choice c t p tun
      × Proxied G choice c t (routed_groups p)
build-Proxied G system p b choice c t h n l =
    let (tun, k, rules, final) = built-parts system p b h in
    let (outside, proxied) =
      selective_rules-Proxied G choice c t p tun n (rw (← rules, ← final) l) in
    (tun, k, outside, proxied)
