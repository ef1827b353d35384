-- ===== src/Tunnel/Selective/Proxied.antt =====
-- What the rules of the selective gateway let into the tunnel and into the helper.
use offveil.Prelude.{
  ◌≡◌, ◌≢◌, refl, sym, ap, ◌∙◌, ◌⊎◌, inl, inr, true, Option, some, List, [], ◌∷◌, ◌++◌, Text, all,
  In, Bool-cases, arith,
}
use offveil.Netip.Prefix.{Prefix}
use offveil.Tunnel.Types.{
  BuildParams, GroupRoute, Network, tcp, udp, Tag, direct, desync, in_suffix, Rule,
}
use offveil.Tunnel.Selective.Rules.{
  is_routed, group_rule, group_rules, web_rule, local_rules, routed_groups, selective_rules,
}
use offveil.Tunnel.Selective.Routing.{
  Routing, leaves, Outside, skip_all, local-Elsewhere, local-missed,
}

module _ {Conn : Type 0} (G : Routing Conn) (choice : Text → Network → Tag) (c : Conn)
    (t : Tag) where
  -- The group whose selector has taken a connection.
  abbrev Chosen : GroupRoute → Type 0
  Chosen g =
      (is_routed g ≡ true)
      × (G.holds (in_suffix g.domain_suffix) c ≡ true)
      × (choice g.id (G.network c) ≡ t)

  -- The rule of a group for one network.
  group-rule :
      (g : GroupRoute) (n : Network) (rs : List Rule) (f : Tag)
      → leaves choice (G.decide (group_rule g n ∷ rs) f c) ≡ some t
      → ((G.holds (in_suffix g.domain_suffix) c ≡ true) × (choice g.id (G.network c) ≡ t))
        ⊎ (leaves choice (G.decide rs f c) ≡ some t)
  group-rule g n rs f h = elim (Bool-cases (all (λ k. G.holds k c) (group_rule g n).conditions)) [
    | inr e ↦ inr (ap (leaves choice) (sym (G.decide-miss (group_rule g n) rs f c e)) ∙ h)
    | inl e ↦
        let taken : Path (Option Tag) (some (choice g.id n)) (some t) =
          ap (leaves choice) (sym (G.decide-hit (group_rule g n) rs f c (λ x. cc x) e)) ∙ h in
        let same : G.network c ≡ n = G.holds-network n c (ground (arith, e)) in
        inl (ground (arith, e), rw same cc)
  ]

  -- The last rule sends IPv4 web traffic to the helper, and without it a connection goes out directly.
  web-rule :
      leaves choice (G.decide (web_rule ∷ []) direct c) ≡ some t
      → t ≢ direct
      → (t ≡ desync) × (G.network c ≡ tcp)
  web-rule h n = elim (Bool-cases (all (λ k. G.holds k c) web_rule.conditions)) [
    | inr e ↦
        let out : Path (Option Tag) (some direct) (some t) =
          ap (leaves choice) (sym (G.decide-miss web_rule [] direct c e ∙ G.decide-none direct c))
          ∙ h in
        absurd (n cc)
    | inl e ↦
        let out : Path (Option Tag) (some desync) (some t) =
          ap (leaves choice) (sym (G.decide-hit web_rule [] direct c (λ x. cc x) e)) ∙ h in
        (cc, G.holds-network tcp c (ground (arith, e)))
  ]

  -- A connection that leaves by a proxy was chosen by a group, or is web traffic for the helper.
  abbrev pub Proxied : List GroupRoute → Type 0
  Proxied gs = ((g : GroupRoute) × In g gs × Chosen g) ⊎ ((t ≡ desync) × (G.network c ≡ tcp))

  later : (g : GroupRoute) (gs : List GroupRoute) → Proxied gs → Proxied (g ∷ gs)
  later g gs (inl (x, m, k)) = inl (x, inr m, k)
  later g gs (inr k) = inr k

  group-rules :
      (gs : List GroupRoute)
      → t ≢ direct
      → leaves choice (G.decide (group_rules gs ++ (web_rule ∷ [])) direct c) ≡ some t
      → Proxied gs
  group-rules [] n h = inr (web-rule h n)
  group-rules (g ∷ gs) n h = elim (Bool-cases (is_routed g)) [
    | inr e ↦ later g gs (group-rules gs n (rw e at h))
    | inl e ↦
        elim (group-rule g tcp (group_rule g udp ∷ (group_rules gs ++ (web_rule ∷ []))) direct
          (rw e at h)) [
            | inl (s, k) ↦ inl (g, inl refl, (e, s, k))
            | inr h2 ↦ elim (group-rule g udp (group_rules gs ++ (web_rule ∷ [])) direct h2) [
              | inl (s, k) ↦ inl (g, inl refl, (e, s, k))
              | inr h3 ↦ later g gs (group-rules gs n h3)
            ]
          ]
  ]

  -- A connection that leaves by something else than the direct outbound.
  pub selective_rules-Proxied :
      (p : BuildParams) (tun : Option Prefix)
      → t ≢ direct
      → leaves choice (G.decide (selective_rules p tun) direct c) ≡ some t
      → Outside G choice c t p tun × Proxied (routed_groups p)
  unfolding selective_rules
  selective_rules-Proxied p tun n h =
      let rest = group_rules (routed_groups p) ++ (web_rule ∷ []) in
      let k =
        ap (leaves choice) (sym (G.decide-sniff [] (local_rules p tun ++ rest) direct c)) ∙ h in
      let (ms, j) =
        skip_all G choice c t (local_rules p tun) rest direct (local-Elsewhere G choice c t n p tun)
          k in
      (local-missed G choice c t p tun ms, group-rules (routed_groups p) n j)
