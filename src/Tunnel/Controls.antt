-- ===== src/Tunnel/Controls.antt =====
-- controls.go: the TLS controls of a provider.
mod Tests
use offveil.Prelude.{
  ℕ, ◌≤◌, ◌≡◌, ◌≢◌, ◌↔◌, refl, sym, ap, ◌+◌, ◌∙◌, Bool, true, false, not, ◌&&◌, ◌||◌, Option, none,
  some, List, [], ◌∷◌, ◌++◌, Text, codes, is_empty, length, ltb, leb, ◌==◌, if◌then◌else◌, contains,
  any, all, All, to_lower, trim_space, trim_suffix, text_eq, text_eq_refl, Result, ok, err, ◌>>=◌,
  >>=-eq-ok, ok_inj, arith, Bool-cases, inl, inr, count_if, map,
}
use offveil.Netip.{Addr}
use offveil.Netip.V6.{parse_addr}
use offveil.Ruleset.Queries.{default_control_hosts}
use offveil.Tunnel.Session.{FailClass, fail_ok}

pub data ControlError : Type 0 where
  invalid_hostname bad_quorum too_many_hosts : ControlError

-- The two fields of Config that normalizeControls reads and writes.
pub record Controls : Type 0 where
  pub hosts : List Text
  pub quorum : ℕ

abbrev hosts_or_default : List Text → List Text
hosts_or_default [] = default_control_hosts
hosts_or_default (h ∷ hs) = h ∷ hs

unfoldable pub canonical_control : Text → Text
unfolding trim_suffix to_lower trim_space
canonical_control host = trim_suffix (to_lower (trim_space host)) (codes ".")

abbrev is_some : Option Addr → Bool
is_some none = false
is_some (some a) = true

-- A name that is no address and has a dot; net.ParseIP reads what ParseAddr reads without a zone.
unfoldable pub is_control_host : Text → Bool
unfolding contains parse_addr
is_control_host h =
    not (is_empty h)
    && not (is_some (parse_addr h))
    && not (any (λ c. contains c h) (b'/' ∷ b':' ∷ b'\\' ∷ b' ' ∷ b'@' ∷ []))
    && contains b'.' h

abbrev pub in_list : Text → List Text → Bool
in_list h seen = any (text_eq h) seen

-- The loop over the hosts, with those that were seen before.
unfoldable pub distinct_controls : List Text → List Text → Result ControlError (List Text)
unfolding canonical_control is_control_host text_eq
distinct_controls seen [] = ok []
distinct_controls seen (h ∷ hs) =
    let name = canonical_control h in
    let again = in_list name seen in
    let rest = distinct_controls (if again then seen else name ∷ seen) hs in
    if not (is_control_host name)
    then err invalid_hostname
    else if again
    then rest
    else (rest >>= λ names. ok (name ∷ names))

abbrev quorum_of : ℕ → ℕ
quorum_of q = if q == 0 then 2 else q

abbrev checked : ℕ → List Text → Result ControlError Controls
checked q hosts =
    if ltb q 2 || ltb (length hosts) q
    then err bad_quorum
    else if ltb 16 (length hosts)
    then err too_many_hosts
    else ok (record { hosts = hosts; quorum = q })

-- normalizeControls.
unfoldable pub normalize_controls : Controls → Result ControlError Controls
unfolding distinct_controls
normalize_controls c =
    distinct_controls [] (hosts_or_default c.hosts) >>= checked (quorum_of c.quorum)

-- ControlResult without its time.
pub record ControlResult : Type 0 where
  pub target : Text
  pub class : FailClass

abbrev pub is_ok : FailClass → Bool
is_ok fail_ok = true
is_ok _ = false

-- checkControls; `probe` is the probe of one host.
unfoldable pub check_controls : List Text → ℕ → (Text → FailClass) → List ControlResult × Bool
check_controls hosts quorum probe =
    let results = map (λ h. record { target = h; class = probe h }) hosts in
    (results, leb 2 quorum && leb quorum (count_if (λ r. is_ok r.class) results))

-- Whether no host of a list stands in `seen`, and none stands twice.
abbrev pub distinct : List Text → List Text → Bool
distinct seen [] = true
distinct seen (h ∷ hs) = not (in_list h seen) && distinct (h ∷ seen) hs

distinct_controls_lem :
    (seen hosts names : List Text)
    → distinct_controls seen hosts ≡ ok names
    → (all is_control_host names ≡ true) × (distinct seen names ≡ true)
unfolding distinct_controls
distinct_controls_lem seen [] names h =
    let s = ok_inj {E = ControlError} [] names h in rw (← s) (refl, refl)
distinct_controls_lem seen (x ∷ xs) names h =
    elim (Bool-cases (is_control_host (canonical_control x))) [
      | inr e ↦
          let k : Path (Result ControlError (List Text)) (err invalid_hostname) (ok names) =
            rw e at h in
          cc
      | inl e ↦ elim (Bool-cases (in_list (canonical_control x) seen)) [
        | inl f ↦ distinct_controls_lem seen xs names (rw (e, f) at h)
        | inr f ↦
            let (rest, k, j) =
              >>=-eq-ok (distinct_controls (canonical_control x ∷ seen) xs) _ (rw (e, f) at h) in
            let s = ok_inj {E = ControlError} (canonical_control x ∷ rest) names j in
            let (a, d) = distinct_controls_lem (canonical_control x ∷ seen) xs rest k in
            (rw (← s) (ground (arith, e, a)), rw (← s) (ground (arith, f, d)))
      ]
    ]

checked_lem :
    (q : ℕ) (hosts : List Text) (c : Controls)
    → checked q hosts ≡ ok c
    → (c.hosts ≡ hosts) × (2 ≤ c.quorum) × (c.quorum ≤ length hosts) × (length hosts ≤ 16)
checked_lem q hosts c h = elim (Bool-cases (ltb q 2 || ltb (length hosts) q)) [
  | inl e ↦ let k : Path (Result ControlError Controls) (err bad_quorum) (ok c) = rw e at h in cc
  | inr e ↦ elim (Bool-cases (ltb 16 (length hosts))) [
    | inl f ↦
        let k : Path (Result ControlError Controls) (err too_many_hosts) (ok c) = rw (e, f) at h in
        cc
    | inr f ↦
        let k : Path (Result ControlError Controls) (ok (record { hosts = hosts; quorum = q }))
            (ok c) =
          rw (e, f) at h in
        let s = ok_inj {E = ControlError} (record { hosts = hosts; quorum = q }) c k in
        rw (← s) (refl, ground (arith, e), ground (arith, e), ground (arith, f))
  ]
]

counted :
    (probe : Text → FailClass) (hosts : List Text)
    → count_if
        (λ (r : ControlResult). is_ok r.class)
        (map (λ h. record { target = h; class = probe h }) hosts)
      ≡ count_if (λ h. is_ok (probe h)) hosts
counted probe [] = refl
counted probe (h ∷ hs) = ap (λ n. (if is_ok (probe h) then 1 else 0) + n) (counted probe hs)

-- Accepted controls are distinct host names and no addresses, at most 16, with a quorum of two or more of
-- them; and a provider is healthy under them exactly when its probes opened that many.
pub normalize_controls_lem :
    (c d : Controls) (probe : Text → FailClass)
    → normalize_controls c ≡ ok d
    → (all is_control_host d.hosts ≡ true)
      × (distinct [] d.hosts ≡ true)
      × (2 ≤ d.quorum)
      × (d.quorum ≤ length d.hosts)
      × (length d.hosts ≤ 16)
      × (((check_controls d.hosts d.quorum probe).1 ≡ true)
          ↔ (d.quorum ≤ count_if (λ h. is_ok (probe h)) d.hosts))
unfolding normalize_controls check_controls
normalize_controls_lem c d probe h =
    let (names, k, j) =
      >>=-eq-ok (distinct_controls [] (hosts_or_default c.hosts)) (checked (quorum_of c.quorum))
        h in
    let (a, u) = distinct_controls_lem [] (hosts_or_default c.hosts) names k in
    let (s, q, l, m) = checked_lem (quorum_of c.quorum) names d j in
    (
      rw s a,
      rw s u,
      q,
      rw s l,
      rw s m,
      (
        λ t. rw (← counted probe d.hosts) (ground arith),
        λ t. rw (counted probe d.hosts) (ground arith),
      ),
    )
