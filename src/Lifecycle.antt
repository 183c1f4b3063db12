-- ===== src/Lifecycle.antt =====
-- internal/lifecycle: the consolidation of finished tasks.
pub mod ArchiveSweep
