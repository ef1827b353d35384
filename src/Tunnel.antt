-- ===== src/Tunnel.antt =====
-- offveil-core/internal/tunnel: the configuration of the gateway and its session.
pub mod Types
pub mod Addresses
pub mod Routes
pub mod Selective
pub mod Session
pub mod Startup
pub mod Providers
pub mod Controls
pub mod Endpoints
