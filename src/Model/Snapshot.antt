-- ===== src/Model/Snapshot.antt =====
-- internal/model/snapshot_manifest.go: the manifest of one machine's captured state, its validation,
-- and its canonical encoding. The manifest's records are those of internal/model/model.go.
pub mod Files
pub mod Validate
pub mod Codec
pub mod Canonical
