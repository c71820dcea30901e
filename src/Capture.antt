-- ===== src/Capture.antt =====
-- internal/archive: what a capture remembers of the files that it has read, and bundles of files.
pub mod Cache
pub mod Bundle
