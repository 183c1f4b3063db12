-- ===== src/Memory.antt =====
-- internal/memory: the persistent memory of an agent.
pub mod Types
pub mod Policy
pub mod Engineering
pub mod Metadata
pub mod Sediment
pub mod Validate
pub mod ActivityLog
pub mod Trust
pub mod Cache
pub mod World
pub mod Reading
pub mod Store
pub mod Cycle
