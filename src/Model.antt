-- ===== src/Model.antt =====
-- internal/model: the domain types that every other package shares.
pub mod Binding
pub mod Lifecycle
pub mod Identity
pub mod Ref
pub mod Snapshot
