-- ===== src/Ruleset.antt =====
-- offveil-core/internal/ruleset: the signed network policy.
pub mod Hosts
pub mod Canonical
pub mod Sets
pub mod Document
pub mod Validate
pub mod Queries
pub mod Routing
mod Tests
