-- ===== src/Depot.antt =====
-- internal/depot: the Archive, an object store of blobs, snapshot manifests and pointers.
pub mod Address
pub mod Keys
pub mod Store
pub mod Codec
pub mod Machine
pub mod Publish
pub mod Push
pub mod Marker
pub mod Init
pub mod Download
pub mod Materialisation
pub mod Verify
pub mod Prepare
pub mod Inspect
pub mod Upload
