-- ===== src/Engine/Classify/Verdict.antt =====
-- What a verdict says of the network.
use offveil.Prelude.{
  ◌+◌, ◌≡◌, refl, Bool, true, false, not, ◌&&◌, List, [], ◌∷◌, ◌++◌, Text, is_empty, length, leb,
  ltb, if◌then◌else◌, count_if, arith, all, any,
}
use offveil.Ruleset.Document.{CanaryGroup}
use offveil.Engine.Signals.{check_ok, dpi_none, dpi_present, dpi_offline, dpi_unknown}
use offveil.Engine.Classify.{
  DirectProbe, HostCheck, measure, filtered, control_checks, group_checks, tally, verdict,
  classify_network,
}

-- A host opens without delay.
abbrev pub opens : DirectProbe → Text → Bool
opens probe host = check_ok (measure probe host []).class

abbrev pub measurable : CanaryGroup → Bool
measurable g = not (is_empty g.probe_hosts)

unfoldable pub blocked_first : DirectProbe → Text → List Text → Bool
blocked_first probe id [] = false
blocked_first probe id (host ∷ hosts) = filtered (measure probe host id).class

-- The first host of a group looks filtered.
unfoldable pub blocked : DirectProbe → CanaryGroup → Bool
unfolding blocked_first
blocked probe g = blocked_first probe g.id g.probe_hosts

tally-controls :
    (probe : DirectProbe) (hosts : List Text) (cs : List HostCheck)
    → ((tally (control_checks probe hosts ++ cs)).controls_ok
        ≡ count_if (opens probe) hosts + (tally cs).controls_ok)
      × ((tally (control_checks probe hosts ++ cs)).canaries ≡ (tally cs).canaries)
      × ((tally (control_checks probe hosts ++ cs)).blocked ≡ (tally cs).blocked)
unfolding tally control_checks measure
tally-controls probe [] cs = (omega arith, refl, refl)
tally-controls probe (host ∷ hosts) cs = ground (arith, tally-controls probe hosts cs)

abbrev named : CanaryGroup → Bool
named g = not (is_empty g.id)

tally-groups :
    (probe : DirectProbe) (gs : List CanaryGroup)
    → all named gs ≡ true
    → ((tally (group_checks probe gs)).controls_ok ≡ 0)
      × ((tally (group_checks probe gs)).canaries ≡ count_if measurable gs)
      × ((tally (group_checks probe gs)).blocked ≡ count_if (blocked probe) gs)
unfolding tally group_checks measure blocked
tally-groups probe [] h = (refl, refl, refl)
tally-groups probe (g ∷ gs) h = ground (arith, tally-groups probe gs)

count-any {ℓ} : {A : Type ℓ} (p : A → Bool) (xs : List A) → ltb 0 (count_if p xs) ≡ any p xs
count-any p [] = refl
count-any p (x ∷ xs) = ground (arith, count-any p xs)

-- Where every group has a name, the verdict is offline exactly when there are two controls and
-- fewer than two open, and otherwise unknown without a measurable group, present when the first
-- host of some group looks filtered, and none when no such host does. The kind of the groups plays no part:
-- a crisis group decides like a persistent one.
pub classify_network_lem :
    (probe : DirectProbe) (controls : List Text) (groups : List CanaryGroup)
    → all named groups ≡ true
    → (classify_network probe controls groups).0 ≡ (
        if leb 2 (length controls) && ltb (count_if (opens probe) controls) 2
        then dpi_offline
        else if not (any measurable groups)
        then dpi_unknown
        else if any (blocked probe) groups
        then dpi_present
        else dpi_none)
unfolding classify_network verdict
classify_network_lem probe controls groups h = ground (
  arith,
  tally-controls probe controls (group_checks probe groups),
  tally-groups probe groups h,
  count-any {0} measurable groups,
  count-any {0} (blocked probe) groups,
)
