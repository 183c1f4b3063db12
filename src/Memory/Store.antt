-- ===== src/Memory/Store.antt =====
-- write.go, temporal.go, refcount.go and embedwrite.go: the operations of a store. Each operation
-- that saves a record reads and computes first, as a preparation, and then writes.
pub mod Embedding
pub mod Writes
pub mod Supersede
pub mod Canonical
pub mod Layers
pub mod Refcount
pub mod Merge
