-- ===== src/Tunnel/Selective/Routing.antt =====
-- What the process of the gateway does with a list of rules, and what the local rules catch.
use offveil.Prelude.{
  ◌≡◌, ◌≢◌, sym, ap, ◌∙◌, inl, inr, Bool, true, false, Option, none, some, List, [], ◌∷◌, ◌++◌,
  Text, all, All, Bool-cases, arith, All-append, All-split, is_empty,
}
use offveil.Netip.Prefix.{Prefix, masked}
use offveil.Tunnel.Types.{
  BuildParams, Network, dns, quic, Tag, direct, selector, Action, sniff, hijack_dns, reject_drop,
  route_to, Condition, protocol_is, in_cidr, ip_is_private, in_suffix, network_is, Rule,
}
use offveil.Tunnel.Addresses.{network_route_exclusions}
use offveil.Tunnel.Selective.Rules.{rule, own_rules, suffix_rules, local_rules}

-- Where a connection goes.
pub data Verdict : Type 0 where
  hijacked dropped : Verdict
  sent : Tag → Verdict

abbrev pub verdict_of : Action → Verdict
verdict_of sniff = dropped
verdict_of hijack_dns = hijacked
verdict_of reject_drop = dropped
verdict_of (route_to t) = sent t

-- The outbound behind a verdict, with what the selectors have chosen.
abbrev pub leaves : (Text → Network → Tag) → Verdict → Option Tag
leaves choice hijacked = none
leaves choice dropped = none
leaves choice (sent (selector g n)) = some (choice g n)
leaves choice (sent t) = some t

-- What the process of the gateway documents of its rules: a rule matches when all its conditions
-- hold; the first rule that matches and does not only sniff decides; without one `final` does.
pub record Routing (Conn : Type 0) : Type 0 where
  pub network : Conn → Network
  pub holds : Condition → Conn → Bool
  pub decide : List Rule → Tag → Conn → Verdict
  pub holds-network : (n : Network) (c : Conn) → holds (network_is n) c ≡ true → network c ≡ n
  pub network-holds : (c : Conn) → holds (network_is (network c)) c ≡ true
  pub decide-none : (f : Tag) (c : Conn) → decide [] f c ≡ sent f
  pub decide-sniff :
      (conditions : List Condition) (rs : List Rule) (f : Tag) (c : Conn)
      → decide (rule conditions sniff ∷ rs) f c ≡ decide rs f c
  pub decide-miss :
      (r : Rule) (rs : List Rule) (f : Tag) (c : Conn)
      → all (λ k. holds k c) r.conditions ≡ false
      → decide (r ∷ rs) f c ≡ decide rs f c
  pub decide-hit :
      (r : Rule) (rs : List Rule) (f : Tag) (c : Conn)
      → r.action ≢ sniff
      → all (λ k. holds k c) r.conditions ≡ true
      → decide (r ∷ rs) f c ≡ verdict_of r.action

module _ {Conn : Type 0} (G : Routing Conn) (choice : Text → Network → Tag) (c : Conn)
    (t : Tag) where
  abbrev pub Misses : Rule → Type 0
  Misses r = all (λ k. G.holds k c) r.conditions ≡ false

  -- Rules that do not send to `t` have missed a connection that goes to `t`.
  skip :
      (r : Rule) (rs : List Rule) (f : Tag)
      → r.action ≢ sniff
      → leaves choice (verdict_of r.action) ≢ some t
      → leaves choice (G.decide (r ∷ rs) f c) ≡ some t
      → Misses r × (leaves choice (G.decide rs f c) ≡ some t)
  skip r rs f a other h = elim (Bool-cases (all (λ k. G.holds k c) r.conditions)) [
    | inl e ↦ absurd (other (ap (leaves choice) (sym (G.decide-hit r rs f c a e)) ∙ h))
    | inr e ↦ (e, ap (leaves choice) (sym (G.decide-miss r rs f c e)) ∙ h)
  ]

  abbrev pub Elsewhere : Rule → Type 0
  Elsewhere r = (r.action ≢ sniff) × (leaves choice (verdict_of r.action) ≢ some t)

  pub skip_all :
      (front rs : List Rule) (f : Tag)
      → All Elsewhere front
      → leaves choice (G.decide (front ++ rs) f c) ≡ some t
      → All Misses front × (leaves choice (G.decide rs f c) ≡ some t)
  skip_all [] rs f es h = (tt, h)
  skip_all (r ∷ front) rs f ((a, o), es) h =
      let (m, k) = skip r (front ++ rs) f a o h in
      let (ms, j) = skip_all front rs f es k in ((m, ms), j)

  -- What is known of a connection that no local rule has caught.
  abbrev pub Outside : BuildParams → Option Prefix → Type 0
  Outside p tun =
      (G.holds (protocol_is dns) c ≡ false)
      × (G.holds ip_is_private c ≡ false)
      × (G.holds (in_cidr (network_route_exclusions p)) c ≡ false)
      × ((q : Prefix) → tun ≡ some q → G.holds (in_cidr (masked q ∷ [])) c ≡ false)
      × (is_empty p.exclude_suffixes ≡ false → G.holds (in_suffix p.exclude_suffixes) c ≡ false)

  drops : Elsewhere (rule [] reject_drop)
  drops = (λ h. cc h, λ h. cc h)

  hijacks : Elsewhere (rule [] hijack_dns)
  hijacks = (λ h. cc h, λ h. cc h)

  exempts : t ≢ direct → Elsewhere (rule [] (route_to direct))
  exempts n = (λ h. cc h, λ (h : Path (Option Tag) (some direct) (some t)). n cc)

  own-Elsewhere : (tun : Option Prefix) → All Elsewhere (own_rules tun)
  own-Elsewhere none = tt
  own-Elsewhere (some q) = (drops, tt)

  suffix-Elsewhere :
      (ss : List Text) (others : List Condition) (a : Action)
      → Elsewhere (rule [] a)
      → All Elsewhere (suffix_rules ss others a)
  suffix-Elsewhere [] others a f = tt
  suffix-Elsewhere (s ∷ ss) others a f = (f, tt)

  pub local-Elsewhere :
      t ≢ direct → (p : BuildParams) (tun : Option Prefix) → All Elsewhere (local_rules p tun)
  unfolding local_rules
  local-Elsewhere n p tun = (
    hijacks,
    All-append Elsewhere (own_rules tun) _ (own-Elsewhere tun) (
      exempts n,
      (
        exempts n,
        All-append Elsewhere (suffix_rules p.exclude_suffixes [] (route_to direct)) _
            (suffix-Elsewhere p.exclude_suffixes [] (route_to direct) (exempts n))
            (suffix-Elsewhere p.quic_reject_suffixes (protocol_is quic ∷ []) reject_drop drops),
      ),
    ),
  )

  own-missed :
      (tun : Option Prefix) (q : Prefix)
      → All Misses (own_rules tun)
      → tun ≡ some q
      → G.holds (in_cidr (masked q ∷ [])) c ≡ false
  own-missed none q ms e = cc
  own-missed (some r) q (m, ms) e =
      let k : Path (Option Prefix) (some r) (some q) = e in
      let s : r ≡ q = cc in rw (← s) (ground (arith, m))

  suffix-missed :
      (ss : List Text) (a : Action)
      → All Misses (suffix_rules ss [] a)
      → is_empty ss ≡ false
      → G.holds (in_suffix ss) c ≡ false
  suffix-missed [] a ms e = cc
  suffix-missed (s ∷ ss) a (m, ms) e = ground (arith, m)

  pub local-missed :
      (p : BuildParams) (tun : Option Prefix) → All Misses (local_rules p tun) → Outside p tun
  unfolding local_rules
  local-missed p tun (d, ms) =
      let (own, (private, (cidr, rest))) = All-split Misses (own_rules tun) _ ms in
      let (suffixes, quics) =
        All-split Misses (suffix_rules p.exclude_suffixes [] (route_to direct)) _ rest in
      (
        ground (arith, d),
        ground (arith, private),
        ground (arith, cidr),
        λ q e. own-missed tun q own e,
        λ e. suffix-missed p.exclude_suffixes (route_to direct) suffixes e,
      )
