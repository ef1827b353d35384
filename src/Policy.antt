-- ===== src/Policy.antt =====
-- offveil-core/internal/policy: which path a domain takes, and how long that is trusted.
pub mod Store
pub mod AsnPath
