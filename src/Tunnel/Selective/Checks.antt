-- ===== src/Tunnel/Selective/Checks.antt =====
-- When the selective gateway can be built.
use offveil.Prelude.{
  ℕ, ◌≡◌, refl, sym, ◌∙◌, ◌⊎◌, ◌↔◌, inl, inr, Bool, true, false, not, ◌&&◌, Option, none, some,
  List, [], ◌∷◌, Text, is_empty, contains, Result, ok, err, >>=-eq-ok, some-injective, both_hold,
  true-not_false, not-true, All, Bool-cases, if◌then◌else◌, ◌>>=◌,
}
use offveil.Netip.{Addr}
use offveil.Netip.V6.{parse_addr}
use offveil.Netip.Prefix.{Prefix, parse_prefix, is4, is_loopback, unmap}
use offveil.Tunnel.Types.{
  System, BuildParams, ProviderId, provider_warp, provider_reality, provider_desync, DnsAddress,
  standalone, malformed_dns, core_dns, Controller, no_controller, malformed_controller,
  controller_at, WarpProfile, RealityCredentials, BuildError, core_stub, core_dns_not_loopback,
  controller_not_loopback, invalid_tun_address, egress_is_tun, as_given,
}
use offveil.Tunnel.Selective.Rules.{is_remote}
use offveil.Tunnel.Selective.{
  build_selective_config, tun_prefix, dns_server_of, network_provider, selector_control,
  remote_part, equal_fold, tun_name, tun_address_of, ipv4_prefix, stub_at, valid_port,
  local_address, local_addresses, local_of, warp_endpoint, reality_outbound, control, provider_part,
}

module _ {E A : Type 0} where
  abbrev pub IsOk : Result E A → Type 0
  IsOk r = (a : A) × (r ≡ ok a)

  >>=-ok :
      {B : Type 0} (first : Result E A) (next : A → Result E B) (a : A) (b : B)
      → first ≡ ok a
      → next a ≡ ok b
      → (first >>= next) ≡ ok b
  >>=-ok first next a b e f = rw e f

  if-IsOk : (b : Bool) (x : A) (f : E) → IsOk (if b then ok x else err f) ↔ (b ≡ true)
  if-IsOk true x f = (λ i. refl, λ e. (x, refl))
  if-IsOk false x f = (λ (a, e). cc, λ e. cc)

-- The adapter: its name is not that of the physical interface, and its address is an IPv4 prefix.
abbrev pub TunChecked : BuildParams → Type 0
TunChecked p =
    (p.enable_tun ≡ false)
    ⊎ ((equal_fold (tun_name p) p.egress_interface ≡ false)
        × ((q : Prefix) × (parse_prefix (tun_address_of p) ≡ some q) × (is4 q.addr ≡ true)))

-- The resolver: that of the core stands on a loopback address and a port.
abbrev pub DnsChecked : DnsAddress → Type 0
DnsChecked standalone = Unit {0}
DnsChecked malformed_dns = ⊥
DnsChecked (core_dns host port) =
    (a : Addr) × (parse_addr host ≡ some a)
    × (is_loopback (unmap a) ≡ true)
    × (valid_port port ≡ true)

-- An address of a WARP profile.
abbrev pub LocalChecked : Text → Type 0
LocalChecked s =
    (is_empty s ≡ true) ⊎ (contains b'/' s ≡ true) ⊎ ((a : Addr) × (parse_addr s ≡ some a))

abbrev pub ProviderChecked : BuildParams → ProviderId → Type 0
ProviderChecked p provider_desync = Unit {0}
ProviderChecked p provider_reality = (r : RealityCredentials) × (p.reality ≡ some r)
ProviderChecked p provider_warp =
    (w : WarpProfile) × (p.warp ≡ some w)
    × LocalChecked w.address_ipv4
    × LocalChecked w.address_ipv6

-- The control of the selectors stands on a loopback address and has a secret.
abbrev pub ControlChecked : Text → Controller → Type 0
ControlChecked secret no_controller = Unit {0}
ControlChecked secret malformed_controller = ⊥
ControlChecked secret (controller_at a) = (is_loopback (unmap a) ≡ true) × (is_empty secret ≡ false)

ipv4_prefix_iff :
    (o : Option Prefix) → IsOk (ipv4_prefix o) ↔ ((q : Prefix) × (o ≡ some q) × (is4 q.addr ≡ true))
ipv4_prefix_iff none = (λ (a, e). cc, λ (q, e, i). cc)
ipv4_prefix_iff (some q) = (
  λ i. (q, refl, (if-IsOk (is4 q.addr) q invalid_tun_address).0 i),
  λ (x, e, i).
      let s : q ≡ x = some-injective q x e in
      (if-IsOk (is4 q.addr) q invalid_tun_address).1 (rw s i),
)

tun_prefix-to : (p : BuildParams) → IsOk (tun_prefix p) → TunChecked p
unfolding tun_prefix
tun_prefix-to p (a, h) = elim (Bool-cases p.enable_tun) [
  | inr e ↦ inl e
  | inl e ↦ elim (Bool-cases (equal_fold (tun_name p) p.egress_interface)) [
    | inl f ↦
        let k : Path (Result BuildError (Option Prefix)) (err egress_is_tun) (ok a) =
          rw (e, f) at h in
        cc
    | inr f ↦
        let (q, k, s) =
          >>=-eq-ok (ipv4_prefix (parse_prefix (tun_address_of p))) _ (rw (e, f) at h) in
        inr (f, (ipv4_prefix_iff (parse_prefix (tun_address_of p))).0 (q, k))
  ]
]

tun_prefix-from : (p : BuildParams) → TunChecked p → IsOk (tun_prefix p)
unfolding tun_prefix
tun_prefix-from p (inl e) = (none, rw e refl)
tun_prefix-from p (inr (f, x)) =
    let (q, k) = (ipv4_prefix_iff (parse_prefix (tun_address_of p))).1 x in
    elim (Bool-cases p.enable_tun) [
      | inr e ↦ (none, rw e refl)
      | inl e ↦ (some q, rw (e, f, k) refl)
    ]

stub_at_iff :
    (port : ℕ) (o : Option Addr)
    → IsOk (stub_at port o)
      ↔ ((a : Addr) × (o ≡ some a) × (is_loopback (unmap a) ≡ true) × (valid_port port ≡ true))
stub_at_iff port none = (λ (a, e). cc, λ (a, e, l, v). cc)
stub_at_iff port (some a) =
    let test = is_loopback (unmap a) && valid_port port in
    (
      λ i.
          let e = (if-IsOk test (core_stub a port) core_dns_not_loopback).0 i in
          (a, refl, (both_hold _ _ e).0, (both_hold _ _ e).1),
      λ (x, e, l, v).
          let s : a ≡ x = some-injective a x e in
          (if-IsOk test (core_stub a port) core_dns_not_loopback).1 (rw (s, l, v) refl),
    )

dns_server_iff : (p : BuildParams) (d : DnsAddress) → IsOk (dns_server_of p d) ↔ DnsChecked d
unfolding dns_server_of
dns_server_iff p standalone = (λ x. tt, λ u. (_, refl))
dns_server_iff p malformed_dns = (λ (a, e). cc, λ u. absurd u)
dns_server_iff p (core_dns host port) = stub_at_iff port (parse_addr host)

control_iff : (secret : Text) (k : Controller) → IsOk (control secret k) ↔ ControlChecked secret k
control_iff secret no_controller = (λ x. tt, λ u. (_, refl))
control_iff secret malformed_controller = (λ (a, e). cc, λ u. absurd u)
control_iff secret (controller_at a) =
    let test = is_loopback (unmap a) && not (is_empty secret) in
    let both = if-IsOk test (some (a, secret)) controller_not_loopback in
    (
      λ i.
          let (l, s) = both_hold _ (not (is_empty secret)) (both.0 i) in
          (l, not-true (is_empty secret) s),
      λ (l, s). both.1 (rw (l, s) refl),
    )

local_of_iff : (o : Option Addr) → IsOk (local_of o) ↔ ((a : Addr) × (o ≡ some a))
local_of_iff none = (λ (a, e). cc, λ (a, e). cc)
local_of_iff (some a) = (λ i. (a, refl), λ x. (_, refl))

-- An address that is not left out.
local_address_iff :
    (s : Text)
    → IsOk (local_address s) ↔ ((contains b'/' s ≡ true) ⊎ ((a : Addr) × (parse_addr s ≡ some a)))
local_address_iff s = elim (Bool-cases (contains b'/' s)) [
  | inl e ↦ (λ i. inl e, λ x. (as_given s, rw e refl))
  | inr e ↦ (
    λ i. inr ((local_of_iff (parse_addr s)).0 (rw e at i)),
    λ x. rw e (elim x [
      | inl f ↦ absurd (true-not_false (sym f ∙ e))
      | inr a ↦ (local_of_iff (parse_addr s)).1 a
    ]),
  )
]

local_addresses-to : (ss : List Text) → IsOk (local_addresses ss) → All LocalChecked ss
local_addresses-to [] i = tt
local_addresses-to (s ∷ ss) (a, h) = elim (Bool-cases (is_empty s)) [
  | inl e ↦ (inl e, local_addresses-to ss (a, rw e at h))
  | inr e ↦
      let (x, k, h1) = >>=-eq-ok (local_address s) _ (rw e at h) in
      let (xs, j, h2) = >>=-eq-ok (local_addresses ss) _ h1 in
      (inr ((local_address_iff s).0 (x, k)), local_addresses-to ss (xs, j))
]

local_addresses-from : (ss : List Text) → All LocalChecked ss → IsOk (local_addresses ss)
local_addresses-from [] cs = ([], refl)
local_addresses-from (s ∷ ss) (c, cs) =
    let (xs, j) = local_addresses-from ss cs in
    elim (Bool-cases (is_empty s)) [
      | inl e ↦ (xs, rw (e, j) refl)
      | inr e ↦ elim c [
        | inl f ↦ absurd (true-not_false (sym f ∙ e))
        | inr d ↦ let (x, k) = (local_address_iff s).1 d in (x ∷ xs, rw (e, k, j) refl)
      ]
    ]

warp_endpoint_iff :
    (p : BuildParams) (o : Option WarpProfile)
    → IsOk (warp_endpoint p o) ↔ (
        (w : WarpProfile) × (o ≡ some w)
        × LocalChecked w.address_ipv4
        × LocalChecked w.address_ipv6)
warp_endpoint_iff p none = (λ (a, e). cc, λ (w, e, x, y). cc)
warp_endpoint_iff p (some w) = (
  λ (a, h).
      let (xs, j, h1) = >>=-eq-ok (local_addresses (w.address_ipv4 ∷ w.address_ipv6 ∷ [])) _ h in
      let (x, (y, u)) = local_addresses-to (w.address_ipv4 ∷ w.address_ipv6 ∷ []) (xs, j) in
      (w, refl, x, y),
  λ (v, e, x, y).
      let s : w ≡ v = some-injective w v e in
      let (xs, j) =
        local_addresses-from (w.address_ipv4 ∷ w.address_ipv6 ∷ []) (rw s x, (rw s y, tt)) in
      (_, >>=-ok (local_addresses (w.address_ipv4 ∷ w.address_ipv6 ∷ [])) _ xs _ j refl),
)

reality_outbound_iff :
    (p : BuildParams) (o : Option RealityCredentials)
    → IsOk (reality_outbound p o) ↔ ((r : RealityCredentials) × (o ≡ some r))
reality_outbound_iff p none = (λ (a, e). cc, λ (r, e). cc)
reality_outbound_iff p (some r) = (λ i. (r, refl), λ x. (_, refl))

provider_iff :
    (p : BuildParams) (k : ProviderId)
    → IsOk (if is_remote k then provider_part p k else ok ([], [])) ↔ ProviderChecked p k
provider_iff p provider_desync = (λ i. tt, λ u. (_, refl))
provider_iff p provider_warp = warp_endpoint_iff p p.warp
provider_iff p provider_reality = reality_outbound_iff p p.reality

remote_part_iff : (p : BuildParams) → IsOk (remote_part p) ↔ ProviderChecked p p.provider
unfolding network_provider
remote_part_iff p = provider_iff p p.provider

-- The gateway is built exactly when all of the following hold, and otherwise there is an error. The adapter is
-- off, or its name differs from the physical interface's and its address is an IPv4 prefix. The
-- resolver is that of the gateway alone, or the core's on a loopback address with a valid port. There
-- is no remote provider, or the credentials of REALITY are there, or a WARP profile is there whose
-- two addresses are each empty, a text with a slash, which is not read any further, or an address. The
-- selectors have no controller, or one on a loopback address with a secret.
pub build_selective_config_iff :
    (system : System) (p : BuildParams)
    → IsOk (build_selective_config system p) ↔ (
        TunChecked p
        × DnsChecked p.dns_address
        × ProviderChecked p p.provider
        × ControlChecked p.clash_secret p.clash_controller)
unfolding build_selective_config selector_control
build_selective_config_iff system p = (
  λ (b, h).
      let (tun, t, h1) = >>=-eq-ok (tun_prefix p) _ h in
      let (server, s, h2) = >>=-eq-ok (dns_server_of p p.dns_address) _ h1 in
      let (remote, r, h3) = >>=-eq-ok (remote_part p) _ h2 in
      let (clash, k, h4) = >>=-eq-ok (selector_control p) _ h3 in
      (
        tun_prefix-to p (tun, t),
        (dns_server_iff p p.dns_address).0 (server, s),
        (remote_part_iff p).0 (remote, r),
        (control_iff p.clash_secret p.clash_controller).0 (clash, k),
      ),
  λ (t, s, r, k).
      let (tun, e1) = tun_prefix-from p t in
      let (server, e2) = (dns_server_iff p p.dns_address).1 s in
      let (remote, e3) = (remote_part_iff p).1 r in
      let (clash, e4) = (control_iff p.clash_secret p.clash_controller).1 k in
      (
        _,
        >>=-ok (tun_prefix p) _ tun _ e1 (
            >>=-ok (dns_server_of p p.dns_address) _ server _ e2 (
              >>=-ok (remote_part p) _ remote _ e3
                (>>=-ok (control p.clash_secret p.clash_controller) _ clash _ e4 refl))),
      ),
)
