-- ===== src/Engine/Classify/Tests.antt =====
-- A line that resets a canary.
use offveil.Prelude.{◌≡◌, refl, ◌∷◌, [], List, Text, codes, text_eq, if◌then◌else◌, ℕ}
use offveil.Ruleset.Document.{CanaryGroup, canary_persistent}
use offveil.Engine.Signals.{FailClass, fail_ok, fail_reset, dpi_present}
use offveil.Engine.Classify.{classify_network, measure, filtered}
use offveil.Engine.Classify.Verdict.{blocked, blocked_first, classify_network_lem}

abbrev controls : List Text
controls = codes "a.org" ∷ codes "b.org" ∷ []

abbrev chat : CanaryGroup
chat = record {
  id = codes "chat";
  label = [];
  kind = canary_persistent;
  probe_hosts = codes "chat.net" ∷ [];
  domain_suffix = [];
}

resets : Text → FailClass × ℕ
resets h = if text_eq h (codes "chat.net") then (fail_reset, 9) else (fail_ok, 20)

classify_network_lem_example : (classify_network resets controls (chat ∷ [])).0 ≡ dpi_present
unfolding resets text_eq blocked blocked_first measure filtered
classify_network_lem_example = classify_network_lem resets controls (chat ∷ []) refl
