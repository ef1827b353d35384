-- ===== src/Dns.antt =====
-- offveil-core/internal/dns: the resolver of the core. The wire format and the upstreams are
-- arguments; a message is what github.com/miekg/dns decodes.
pub mod Message
pub mod Poison
pub mod Stub
pub mod Breaker
pub mod Cache
pub mod Services
pub mod Restore
