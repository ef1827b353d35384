-- ===== src/Engine/Expand/Tests.antt =====
-- Queries at a sample engine.
use offveil.Prelude.{
  ◌≡◌, refl, false, none, [], ◌∷◌, codes, arith, text_eq, to_lower, trim_space, trim_suffix, split,
  contains,
}
use offveil.Ruleset.Hosts.{valid_label}
use offveil.Engine.Samples.{running}
use offveil.Engine.Expand.{observe_dns_query, normalize_expand_host, is_expandable, observe_host}
use offveil.Engine.Expand.Seen.{IsSeen}

seen_once :
    (observe_dns_query false
      (codes "A.Example.org.")
      (observe_dns_query false (codes "a.example.org") running)).expand_seen
    ≡ codes "a.example.org" ∷ []
unfolding observe_dns_query normalize_expand_host is_expandable observe_host text_eq trim_suffix
    to_lower trim_space contains split valid_label
seen_once = refl

local_name : normalize_expand_host (codes "printer.local") ≡ none
unfolding normalize_expand_host is_expandable trim_suffix to_lower trim_space contains
local_name = refl

empty-IsSeen : IsSeen []
empty-IsSeen = record { few = omega arith; distinct = tt; normal = λ h i. absurd i }
