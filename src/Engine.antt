-- ===== src/Engine.antt =====
-- offveil-core/internal/engine: the protection orchestrator. Every section that the source runs
-- under the lifecycle lock is one step on the engine's state; what it measures or starts outside
-- the lock is an argument of the next step.
pub mod Signals
pub mod Classify
pub mod Groups
pub mod Core
pub mod Failures
pub mod Layers
pub mod Status
pub mod Monitor
pub mod Repairs
pub mod Strategy
pub mod Recovery
pub mod Expand
pub mod Heal
pub mod Reprobe
pub mod Lifecycle
mod Samples
