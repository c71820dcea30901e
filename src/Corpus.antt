-- ===== src/Corpus.antt =====
-- internal/corpus: what a Workspace derives from the sessions that it holds. The code around SQLite is
-- left out, or has its tables as records.
pub mod Invocation
pub mod Parsed
pub mod Stored
pub mod Workspace
pub mod MessageRef
pub mod Pairing
pub mod Clusters
pub mod Episodes
