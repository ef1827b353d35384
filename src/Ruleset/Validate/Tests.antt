-- ===== src/Ruleset/Validate/Tests.antt =====
-- A document that parses, some that do not, and the theorems about accepted documents at it.
use offveil.Prelude.{ℕ, ◌≡◌, refl, [], ◌∷◌, Option, none, some, Text, codes, ok, err}
use offveil.Ruleset.Hosts.{normalize_host, unique_hosts, valid_hostname, match_suffix}
use offveil.Ruleset.Document.{Document, old_version, probe_outside, canary_persistent}
use offveil.Ruleset.Queries.{
  tunnel_domains, protected_domains, target_seeds, match_package, probe_hosts,
}
use offveil.Ruleset.Routing.{accepted_routing}
use offveil.Ruleset.Validate.{
  check_hosts, check_routes, check_probes, check_canary, check_canaries, valid_group_id,
  validate_canaries, check_strategies, validate_strategies, is_poison_ip, check_poison, validate,
  parse_document,
}
use offveil.Ruleset.Validate.Accepted.{IsAccepted, parse_document-IsAccepted}

abbrev draft : Text → ℕ → Document
draft probe version = record {
  schema_version = 3;
  version = version;
  updated_at = [];
  network = record {
    control_hosts = codes "Example.com" ∷ codes "example.org" ∷ codes "example.com." ∷ [];
    routes = [];
  };
  canaries =
      record {
        id = codes "chat";
        label = [];
        kind = canary_persistent;
        probe_hosts = probe ∷ [];
        domain_suffix = codes "*.chat.net" ∷ [];
      }
      ∷ [];
  exclude = [];
  strategies = [];
  poison_ips = codes "10.10.34.35" ∷ [];
  packages = [];
}

abbrev decode : Text → Option Document
decode raw = some (draft (codes "www.chat.net") 9)

abbrev parsed : Document
parsed = record (draft (codes "www.chat.net") 9) {
  network = record { control_hosts = codes "example.com" ∷ codes "example.org" ∷ []; routes = [] };
  canaries =
      record {
        id = codes "chat";
        label = [];
        kind = canary_persistent;
        probe_hosts = codes "www.chat.net" ∷ [];
        domain_suffix = codes "chat.net" ∷ [];
      }
      ∷ [];
}

decode_parses : parse_document decode [] ≡ ok parsed
unfolding parse_document validate check_hosts check_routes validate_canaries check_canaries
    check_canary valid_group_id check_probes validate_strategies check_strategies check_poison
    is_poison_ip unique_hosts normalize_host valid_hostname match_suffix
decode_parses = refl

probe_elsewhere :
    validate (draft (codes "www.other.net") 9) ≡ err (probe_outside (codes "www.other.net"))
unfolding validate check_hosts check_routes validate_canaries check_canaries check_canary
    valid_group_id check_probes validate_strategies check_strategies check_poison is_poison_ip
    unique_hosts normalize_host valid_hostname match_suffix
probe_elsewhere = refl

version_seven : validate (draft [] 7) ≡ err (old_version 7)
unfolding validate
version_seven = refl

parse_document-IsAccepted_example : IsAccepted parsed
parse_document-IsAccepted_example = parse_document-IsAccepted decode [] parsed decode_parses

accepted_routing_example :
    (tunnel_domains parsed ≡ [])
    × (protected_domains parsed ≡ [])
    × (target_seeds parsed ≡ [])
    × ((host : Text) → match_package parsed host ≡ none)
    × (probe_hosts parsed ≡ parsed.network.control_hosts)
accepted_routing_example =
    accepted_routing parsed (parse_document-IsAccepted decode [] parsed decode_parses)
