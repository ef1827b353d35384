-- ===== src/Desync.antt =====
-- offveil-core/internal/desync: the arguments of the strategies that the helper is started with.
pub mod Args
pub mod Chain
pub mod Store
pub mod Scan
