-- ===== src/Diag.antt =====
-- offveil-core/internal/diag: what is kept for a report.
pub mod Failures
