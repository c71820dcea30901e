-- ===== src/Lib.antt =====
-- A model of aha, which captures agent sessions into an Archive (an object store of blobs, snapshot
-- manifests and pointers) and downloads them into Workspaces.
--
-- The parts, and the files that model them:
-- - Model.Lifecycle: internal/model/lifecycle.go. `archive_transition` and `workspace_transition` are
--   ArchiveTransition and WorkspaceTransition; Reach has the step relations.
-- - Model.Identity: internal/model/identity.go. A Go struct with a private value is a record; `new_*`
--   and `parse_*` are the constructors, Valid holds the methods `Valid`.
-- - Model.Ref: internal/model/ref.go. `format_ref` gives no text where the source panics.
-- - Model.Snapshot: internal/model/snapshot_manifest.go and the manifest's records of
--   internal/model/model.go: validation (Validate) and the canonical encoding (Codec).
-- - Cas: internal/cas/cas.go. The bytes that PutFile stores, and what VerifyReader lets through: as a check
--   of the whole content, which the other parts use, and as the streaming reader (Reader).
-- - Depot: internal/depot. Address has the addresses of depot.go and the bucket names of r2.go;
--   Keys (keys_v2.go, and safeCatalogComponent of depot.go) names the objects;
--   Store (objectstore_v2.go) has the primitives of the local store, and Store.Atomic the steps of
--   AtomicWriteCreated of internal/fileutil/hashcopy.go, which its writes of new objects take; Codec the pointers and the
--   index of machines; Machine the reads and receipts of depot_v2.go; Publish its publishSnapshot,
--   setLatest, recommitParent and ensureInMachinesIndex; Marker and Init the Archive's marker; Prepare
--   its PreparePull and PrepareUpload; Download its DownloadPlan, the delta and the adapters; Inspect
--   its InspectMetadata; Verify its VerifyWithOptions. Materialisation is materialisation_plan.go, Upload
--   the PlanUpload and Execute of push_v2.go, Push its pushV2WithOptions. An Archive of the current
--   layout has its data under aha-v3/, which prefixed_store.go makes a store of its own: here that is
--   a second World. The modules named Keeps carry a property of the objects through every operation;
--   those named Safety instantiate it; those named Agrees, Plan, Sound and Complete have one component's results
--   against another's or against what is stored.
-- - Redact: internal/redact/redact.go, with the built-in expressions as they stand.
-- - Capture.Cache: internal/archive/capture_cache.go, the scan cache; Sound has the relation between a
--   file's states as the clock goes on. Capture.Bundle: internal/archive/archive.go as far as it reads
--   and validates bundles (`read_manifest`, `walk_tar_zstd`, `stream_manifest_files`), with the records
--   of the manifest of internal/model/model.go.
-- - Corpus: internal/corpus. Clusters (the command families and error signatures of clusters.go),
--   Pairing (its BuildToolInvocations), MessageRef (its messageRefText), Stored (insertToolInvocations
--   and storedToolOutcome of ingest.go), Parsed and Invocation (their records), Episodes (episodes.go)
--   and Workspace (workspace_state.go): the tables of a Workspace, what is written to them (Rows), what
--   they stand for (Refines), and every sequence of calls on them (Reached).
-- - Model.Binding: internal/model/archive_binding.go and ShouldIndexRoleText of enums.go.
-- - Prelude, Text and Encoding: lists, results, Go strings as lists of bytes, package strings, path,
--   hex, base64 and binary as far as the program uses them.
-- - Examples: concrete parameters, and the theorems at concrete inputs.
--
-- A push captures a manifest, uploads its blobs through Cas and Store, writes the manifest and then
-- moves the machine's latest pointer by a conditional write; a pull reads the pointers and then the
-- manifests. An operation on an Archive is a function on a World: the objects, and a list of events
-- that say, for each primitive call, what other processes did before it and whether it fails. So
-- a theorem about every World is about every interleaving with other processes.
--
-- Bounds: a conditional write is tried twelve times, as in the source, and then fails with
-- `contention`: Depot.Store.Costs counts the calls that this makes, and Depot.Publish.Bounded adds them
-- up. The digits of a number are bounded by the number, and the rounds of TrimSpace by the
-- length of the text: each takes a part of it. A Go int is a natural number where it is a length; that a
-- length is below 2^63 is a hypothesis where it matters.
--
-- Depot.Store.Quiet and Depot.Publish.Quiet are about Worlds without events, in which nobody else acts.
-- Tool calls are paired with results by Pairing, Episodes groups them into
-- failures and what resolved them, and Clusters names their command families.
--
-- Parameters: crypto/sha256 (its digests have 32 bytes), klauspost/compress (a written stream is read
-- back) and encoding/json (a written document of valid UTF-8 is read back). A collision of SHA-256 is
-- an explicit alternative in the theorems that meet one. Package regexp, strings.ToLower and
-- time.Parse are functions; what a theorem needs of one is a hypothesis of it.
--
-- Not modelled: the R2 client, the other tables of the corpus, the session adapters, the building of a
-- capture's manifest and the writing of bundles, the command line, the server and the MCP tools, which
-- walk directories or call services and libraries outside the repository; progress reports and the
-- count of downloaded bytes; clusterScore, which is floating point, and sortToolInvocations, whose sort
-- is unstable. archive/tar and zstd are a parameter of Capture.Bundle: the entries of a file, up to its
-- end or the first error. That putBytesConditional reads and writes at once is assumed of the store's
-- lock, which is none on Windows.
pub mod Prelude
pub mod Text
pub mod Encoding
pub mod Model
pub mod Cas
pub mod Depot
pub mod Redact
pub mod Corpus
pub mod Capture
pub mod Examples
