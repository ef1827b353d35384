-- ===== src/Tunnel/Controls/Tests.antt =====
-- Three controls, one of them twice.
use offveil.Prelude.{
  ◌≡◌, ◌≤◌, ◌↔◌, refl, true, [], ◌∷◌, Text, codes, all, length, count_if, ok, err, text_eq,
  if◌then◌else◌,
}
use offveil.Tunnel.Session.{FailClass, fail_ok, fail_timeout}
use offveil.Tunnel.Controls.{
  Controls, normalize_controls, is_control_host, distinct, check_controls, is_ok, invalid_hostname,
  normalize_controls_lem,
}

abbrev given : Controls
given = record {
  hosts = codes " One.example. " ∷ codes "two.example" ∷ codes "one.example" ∷ [];
  quorum = 0;
}

abbrev accepted : Controls
accepted = record { hosts = codes "one.example" ∷ codes "two.example" ∷ []; quorum = 2 }

given-accepted : normalize_controls given ≡ ok accepted
unfolding normalize_controls
given-accepted = refl

address :
    normalize_controls (record { hosts = codes "10.0.0.1" ∷ []; quorum = 0 }) ≡ err invalid_hostname
unfolding normalize_controls
address = refl

abbrev probe : Text → FailClass
probe h = if text_eq h (codes "one.example") then fail_ok else fail_timeout

normalize_controls_lem_example :
    (all is_control_host accepted.hosts ≡ true)
    × (distinct [] accepted.hosts ≡ true)
    × (2 ≤ accepted.quorum)
    × (accepted.quorum ≤ length accepted.hosts)
    × (length accepted.hosts ≤ 16)
    × (((check_controls accepted.hosts accepted.quorum probe).1 ≡ true)
        ↔ (accepted.quorum ≤ count_if (λ h. is_ok (probe h)) accepted.hosts))
normalize_controls_lem_example = normalize_controls_lem given accepted probe given-accepted
