-- ===== src/Engine/Expand/Seen.antt =====
-- What the set of observed hosts holds.
use offveil.Prelude.{
  ◌≤◌, ◌≡◌, refl, Bool, true, false, not, ◌||◌, List, some, arith, Text, length, leb, split, all,
  all-split, split-last, Bool-cases, Option-cases, inl, inr, In, subst, sym,
}
use offveil.Ruleset.Hosts.{member, valid_label, label_char}
use offveil.Ruleset.Sets.{Distinct, In→member}
use offveil.Ruleset.Canonical.{
  plain, labels-plain, labels-filled, plain-lower, plain-trim_space, trim_end,
}
use offveil.Engine.Core.{Engine}
use offveil.Engine.Expand.{
  expand_max_hosts, is_expandable, canonical, normalize_expand_host, see, observe_host,
  observe_normal, observe_dns_query,
}

expandable-labels : (h : Text) → is_expandable h ≡ true → all valid_label (split b'.' h) ≡ true
unfolding is_expandable
expandable-labels h e = ground (arith, e)

-- An accepted host is its own canonical form.
canonical-expandable : (h : Text) → is_expandable h ≡ true → canonical h ≡ h
canonical-expandable h e =
    let labels = expandable-labels h e in
    let bytes : all plain h ≡ true = all-split b'.' label_char h (labels-plain _ labels) in
    rw (plain-trim_space h bytes, plain-lower h bytes)
      (trim_end h (split-last b'.' 0 h (labels-filled _ labels) refl))

normalized :
    (host h : Text) → normalize_expand_host host ≡ some h → normalize_expand_host h ≡ some h
unfolding normalize_expand_host
normalized host h e =
    let good : is_expandable h ≡ true = ground (arith, e) in
    rw (canonical-expandable h good, good) refl

-- The hosts that the engine has seen: bounded, each once, each in the form that it looks them up in.
pub record IsSeen (seen : List Text) : Type 0 where
  pub few : length seen ≤ expand_max_hosts
  pub distinct : Distinct seen
  pub normal : (h : Text) → In h seen → normalize_expand_host h ≡ some h

see-IsSeen :
    (h : Text) (seen : List Text)
    → IsSeen seen
    → leb expand_max_hosts (length seen) ≡ false
    → normalize_expand_host h ≡ some h
    → IsSeen (see h seen)
see-IsSeen h seen s few good = elim (Bool-cases (member h seen)) [
  | inl m ↦ rw m s
  | inr m ↦ rw m (record {
    few = ground (arith, few);
    distinct = (λ i. ground (arith, m, In→member h seen i), s.distinct);
    normal = λ g i. elim i [
      | inl e ↦ subst (λ x. normalize_expand_host x ≡ some x) (sym e) good
      | inr i ↦ s.normal g i
    ];
  })
]

observe_host-IsSeen :
    (h : Text) (e : Engine)
    → IsSeen e.expand_seen
    → normalize_expand_host h ≡ some h
    → IsSeen (observe_host h e).expand_seen
unfolding observe_host
observe_host-IsSeen h e s n =
    elim (Bool-cases (not e.protection || leb expand_max_hosts (length e.expand_seen))) [
      | inl stop ↦ simp stop s
      | inr go ↦ simp go (see-IsSeen h e.expand_seen s (ground (arith, go)) n)
    ]

-- A query keeps the set of hosts within 128 distinct hosts, each in the form in which later queries
-- look it up, whatever bytes the query holds.
pub observe_dns_query-IsSeen :
    (locked : Bool) (host : Text) (e : Engine)
    → IsSeen e.expand_seen
    → IsSeen (observe_dns_query locked host e).expand_seen
unfolding observe_dns_query
observe_dns_query-IsSeen locked host e s = elim (Option-cases (normalize_expand_host host)) [
  | inl n ↦ simp n s
  | inr (h, n) ↦ simp n (counted locked h (normalized host h n))
]
  where
    counted :
        (locked : Bool) (h : Text)
        → normalize_expand_host h ≡ some h
        → IsSeen (observe_normal locked (some h) e).expand_seen
    counted true h n = s
    counted false h n = observe_host-IsSeen h e s n
