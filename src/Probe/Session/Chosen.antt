-- ===== src/Probe/Session/Chosen.antt =====
-- The path that a report chooses, and what an unhealthy control host means for it.
use offveil.Prelude.{
  ℕ, ◌≡◌, ◌≢◌, ◌↔◌, refl, sym, ap, ◌∙◌, Bool, true, false, ◌&&◌, ◌||◌, Option, none, some, List, [],
  ◌∷◌, Text, any, all, All, arith, text_eq, true-not_false, if-holds, is_empty,
}
use offveil.Probe.{
  Class, class_open, class_dns_poison, class_dpi_reset, class_ip_drop, class_timeout,
  class_throttle_suspect, no_class, path_for, prefer_path, path_rank, is_forced, direct, desync,
  tunnel,
}
use offveil.Probe.Target.{
  ProbeResult, World, concluded, resolved, is_mixed, is_nxdomain, target_probe, Resolution,
  known_poison, failed, answered,
}
use offveil.Probe.Session.{
  Options, session, control_probe, is_healthy, control_time, with_control, without_control, is_open,
  weighed, prefer_all, probe_all, hosts_or,
}

-- The three paths by their rank.
data Level : Type 0 where
  low mid high : Level

abbrev text_of : Level → Text
text_of low = direct
text_of mid = desync
text_of high = tunnel

abbrev level_of : Class → Level
level_of class_open = low
level_of class_ip_drop = high
level_of class_throttle_suspect = high
level_of _ = mid

abbrev join : Level → Level → Level
join low m = m
join high m = high
join mid high = high
join mid _ = mid

abbrev is_high : Level → Bool
is_high high = true
is_high _ = false

abbrev is_low : Level → Bool
is_low low = true
is_low _ = false

path-level : (c : Class) → path_for c ≡ text_of (level_of c)
path-level class_open = refl
path-level class_dns_poison = refl
path-level class_dpi_reset = refl
path-level class_ip_drop = refl
path-level class_timeout = refl
path-level class_throttle_suspect = refl
path-level no_class = refl

prefer-join : (l m : Level) → prefer_path (text_of l) (text_of m) ≡ text_of (join l m)
unfolding prefer_path path_rank text_eq
prefer-join low low = refl
prefer-join low mid = refl
prefer-join low high = refl
prefer-join mid low = refl
prefer-join mid mid = refl
prefer-join mid high = refl
prefer-join high low = refl
prefer-join high mid = refl
prefer-join high high = refl

abbrev worst : Level → List ProbeResult → Level
worst l [] = l
worst l (r ∷ rs) = worst (join l (level_of r.class)) rs

-- A result whose path is that of its class.
abbrev HasPath : ProbeResult → Type 0
HasPath r = r.path ≡ path_for r.class

prefer_all-worst :
    (l : Level) (rs : List ProbeResult)
    → All HasPath rs
    → prefer_all (text_of l) rs ≡ text_of (worst l rs)
prefer_all-worst l [] h = refl
prefer_all-worst l (r ∷ rs) (p, ps) =
    ap (λ x. prefer_all (prefer_path (text_of l) x) rs) (p ∙ path-level r.class)
    ∙ ap (λ x. prefer_all x rs) (prefer-join l (level_of r.class))
    ∙ prefer_all-worst (join l (level_of r.class)) rs ps

join-high : (l m : Level) → is_high (join l m) ≡ (is_high l || is_high m)
join-high low m = refl
join-high mid low = refl
join-high mid mid = refl
join-high mid high = refl
join-high high m = refl

join-low : (l m : Level) → is_low (join l m) ≡ (is_low l && is_low m)
join-low low m = refl
join-low mid low = refl
join-low mid mid = refl
join-low mid high = refl
join-low high m = refl

forced-high : (c : Class) → is_high (level_of c) ≡ is_forced c
forced-high class_open = refl
forced-high class_dns_poison = refl
forced-high class_dpi_reset = refl
forced-high class_ip_drop = refl
forced-high class_timeout = refl
forced-high class_throttle_suspect = refl
forced-high no_class = refl

open-low : (c : Class) → is_low (level_of c) ≡ is_open c
open-low class_open = refl
open-low class_dns_poison = refl
open-low class_dpi_reset = refl
open-low class_ip_drop = refl
open-low class_timeout = refl
open-low class_throttle_suspect = refl
open-low no_class = refl

worst-high :
    (l : Level) (rs : List ProbeResult)
    → is_high (worst l rs) ≡ (is_high l || any (λ r. is_forced r.class) rs)
worst-high l [] = ground arith
worst-high l (r ∷ rs) = ground (
  arith,
  worst-high (join l (level_of r.class)) rs,
  join-high l (level_of r.class),
  forced-high r.class,
)

worst-low :
    (l : Level) (rs : List ProbeResult)
    → is_low (worst l rs) ≡ (is_low l && all (λ r. is_open r.class) rs)
worst-low l [] = ground arith
worst-low l (r ∷ rs) = ground (
  arith,
  worst-low (join l (level_of r.class)) rs,
  join-low l (level_of r.class),
  open-low r.class,
)

abbrev rank : Level → ℕ
rank low = 1
rank mid = 2
rank high = 3

rank-text : (l : Level) → path_rank (text_of l) ≡ rank l
unfolding path_rank text_eq
rank-text low = refl
rank-text mid = refl
rank-text high = refl

same_rank : (l m : Level) → text_of l ≡ text_of m → rank l ≡ rank m
same_rank l m h = sym (rank-text l) ∙ ap path_rank h ∙ rank-text m

tunnel_iff : (l : Level) → (text_of l ≡ tunnel) ↔ (is_high l ≡ true)
tunnel_iff low = (λ h. let e = same_rank low high h in absurd (omega arith), λ h. cc)
tunnel_iff mid = (λ h. let e = same_rank mid high h in absurd (omega arith), λ h. cc)
tunnel_iff high = (λ h. refl, λ h. refl)

direct_iff : (l : Level) → (text_of l ≡ direct) ↔ (is_low l ≡ true)
direct_iff low = (λ h. refl, λ h. refl)
direct_iff mid = (λ h. let e = same_rank mid low h in absurd (omega arith), λ h. cc)
direct_iff high = (λ h. let e = same_rank high low h in absurd (omega arith), λ h. cc)

concluded-HasPath :
    (host : Text) (took : ℕ) (b : Bool) (http : Option Bool) (opened : Option Class) (best : Class)
    (any_dial : Bool)
    → HasPath (concluded host took b http opened best any_dial)
concluded-HasPath host took b http (some class_throttle_suspect) best any_dial = refl
concluded-HasPath host took b http (some class_open) best any_dial = refl
concluded-HasPath host took b http (some class_dns_poison) best any_dial = refl
concluded-HasPath host took b http (some class_dpi_reset) best any_dial = refl
concluded-HasPath host took b http (some class_ip_drop) best any_dial = refl
concluded-HasPath host took b http (some class_timeout) best any_dial = refl
concluded-HasPath host took b http (some no_class) best any_dial = refl
concluded-HasPath host took b http none best any_dial =
    if-holds HasPath (is_mixed best any_dial) _ _ (λ e. refl) (λ e. refl)

resolved-HasPath :
    (w : World) (control : ℕ) (host : Text) (r : Resolution) → HasPath (resolved w control host r)
resolved-HasPath w control host known_poison = refl
resolved-HasPath w control host (failed message) =
    if-holds HasPath (is_nxdomain message) _ _ (λ e. refl) (λ e. refl)
resolved-HasPath w control host (answered []) = refl
resolved-HasPath w control host (answered (a ∷ more)) =
    if-holds HasPath (any w.is_poison (a ∷ more)) _ _ (λ e. refl)
      (λ e. concluded-HasPath host _ _ _ _ _ _)

-- Every result of a probe, and what the session makes of it, has the path of its class.
target_probe-HasPath :
    (w : World) (control : ℕ) (host : Text) → HasPath (target_probe w control host)
unfolding target_probe
target_probe-HasPath w control host =
    if-holds HasPath (is_empty host) _ _ (λ e. refl)
      (λ e. resolved-HasPath w control host (w.resolve host))

weighed-HasPath : (healthy : Bool) (r : ProbeResult) → HasPath r → HasPath (weighed healthy r)
unfolding weighed
weighed-HasPath true r h = kept r.class
  where
    kept : (c : Class) → HasPath (with_control c r)
    kept class_open = h
    kept class_dns_poison = h
    kept class_dpi_reset = h
    kept class_ip_drop = h
    kept class_timeout = refl
    kept class_throttle_suspect = h
    kept no_class = h
weighed-HasPath false r h = kept r.class
  where
    kept : (c : Class) → HasPath (without_control c r)
    kept class_open = h
    kept class_dns_poison = h
    kept class_dpi_reset = h
    kept class_ip_drop = refl
    kept class_timeout = h
    kept class_throttle_suspect = refl
    kept no_class = h

probe_all-HasPath :
    (w : World) (o : Options) (control : Option ProbeResult) (hosts : List Text)
    → All HasPath (probe_all w o control hosts)
probe_all-HasPath w o control [] = tt
probe_all-HasPath w o control (h ∷ hs) = (
  weighed-HasPath (is_healthy control) _ (target_probe-HasPath w _ h),
  probe_all-HasPath w o control hs,
)

unforced : (r : ProbeResult) → is_forced (weighed false r).class ≡ false
unfolding weighed
unforced r = by_class r.class refl
  where
    by_class : (c : Class) → c ≡ r.class → is_forced (without_control c r).class ≡ false
    by_class class_open e = rw (← e) refl
    by_class class_dns_poison e = rw (← e) refl
    by_class class_dpi_reset e = rw (← e) refl
    by_class class_ip_drop e = refl
    by_class class_timeout e = rw (← e) refl
    by_class class_throttle_suspect e = refl
    by_class no_class e = rw (← e) refl

none_forced :
    (w : World) (o : Options) (control : Option ProbeResult) (hosts : List Text)
    → is_healthy control ≡ false
    → any (λ r. is_forced r.class) (probe_all w o control hosts) ≡ false
none_forced w o control [] h = refl
none_forced w o control (x ∷ xs) h =
    let step = unforced (target_probe w (control_time o.control_tls control) x) in
    rw h (rw step (none_forced w o control xs h))

-- The path that a report chooses is the tunnel exactly when a result is a drop of the address or a
-- throttle, and direct exactly when every result is open; it never is the tunnel where the control
-- host is not open.
pub session_lem :
    (w : World) (hosts : List Text) (o : Options)
    → (((session w hosts o).chosen ≡ tunnel)
        ↔ (any (λ r. is_forced r.class) (session w hosts o).results ≡ true))
      × (((session w hosts o).chosen ≡ direct)
          ↔ (all (λ r. is_open r.class) (session w hosts o).results ≡ true))
      × (is_healthy (control_probe w o) ≡ false → (session w hosts o).chosen ≢ tunnel)
unfolding session
session_lem w hosts o =
    let rs = probe_all w o (control_probe w o) (hosts_or hosts) in
    let chosen =
      prefer_all-worst low rs (probe_all-HasPath w o (control_probe w o) (hosts_or hosts)) in
    let high_iff = tunnel_iff (worst low rs) in
    let low_iff = direct_iff (worst low rs) in
    (
      (
        λ h. sym (worst-high low rs) ∙ high_iff.0 (sym chosen ∙ h),
        λ h. chosen ∙ high_iff.1 (worst-high low rs ∙ h),
      ),
      (
        λ h. sym (worst-low low rs) ∙ low_iff.0 (sym chosen ∙ h),
        λ h. chosen ∙ low_iff.1 (worst-low low rs ∙ h),
      ),
      λ u h.
          let forced = sym (worst-high low rs) ∙ high_iff.0 (sym chosen ∙ h) in
          true-not_false (sym forced ∙ none_forced w o (control_probe w o) (hosts_or hosts) u),
    )
