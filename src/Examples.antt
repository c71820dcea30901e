-- ===== src/Examples.antt =====
-- The theorems of the development at concrete inputs, and the parameters that they are given there.
pub mod Digest
mod Format
pub mod Documents
mod Identity
mod Ref
mod Blobs
mod Snapshot
mod Store
mod Push
pub mod Markers
pub mod Redaction
mod Episodes
mod Addresses
mod Captures
mod Workspaces
mod Tools
pub mod Downloads
mod Inspections
mod Bundles
