-- ===== src/Depot/Machine.antt =====
-- The reads of internal/depot/depot_v2.go and the write surface of one machine, `machineDepot`.
pub mod Keeps
use aha.Prelude.{
  Bool, true, false, not, List, [], ◌∷◌, Option, none, some, Result, ok, err, if◌then◌else◌,
}
use aha.Text.{Bytes, text_eq, contains}
use aha.Cas.{is_valid_key, put_file}
use aha.Model.Snapshot.Files.{ManifestFile, SnapshotManifest}
use aha.Model.Snapshot.Codec.{ManifestSha256, PreparedSnapshot, decode_prepared_snapshot}
use aha.Depot.Keys.{
  safe_catalog_component, manifest_object_key, latest_pointer_key, blob_object_key,
  machines_index_key,
}
use aha.Depot.Store.{Depot, DepotError, ◌>>=◌, ◌>>◌, pure, raise, attempt, get, put_if_absent}
use aha.Depot.Codec.{Externals, decode_latest_pointer, decode_machines_index}

-- An error of a pure function, as an error of the depot.
abbrev pub or_raise : {E A : Type 0} → Result E A → DepotError → Depot A
or_raise (ok a) e = pure a
or_raise (err _) e = raise e

abbrev pub raise_if : Bool → DepotError → Depot (Unit {0})
raise_if true e = raise e
raise_if false e = pure tt

-- `errors.Is(err, errObjectNotExist)`, with the other errors passed on.
abbrev pub absent_or : {A : Type 0} → Result DepotError A → Depot (Option A)
absent_or (ok a) = pure (some a)
absent_or (err DepotError.object_not_exist) = pure none
absent_or (err e) = raise e

pub data BlobReceiptKind : Type 0 where
  created existing carried : BlobReceiptKind

pub record BlobReceipt : Type 0 where
  pub key : Bytes
  pub kind : BlobReceiptKind

pub data LatestExpectation : Type 0 where
  expect_absent : LatestExpectation
  expect_sha : ManifestSha256 → LatestExpectation

pub record PublishedSnapshot : Type 0 where
  pub machine : Bytes
  pub sha : ManifestSha256
  pub expected : LatestExpectation

-- The map `blobs` of the source is the texts that it holds.
pub record ParentSnapshot : Type 0 where
  pub manifest : SnapshotManifest
  pub sha : ManifestSha256
  pub blobs : List Bytes

abbrev pub file_shas : List ManifestFile → List Bytes
file_shas [] = []
file_shas (f ∷ fs) = f.sha256 ∷ file_shas fs

module _ (x : Externals) where
  -- Machines: one GET of the index.
  unfoldable pub machines : Depot (List Bytes)
  machines = do
    r ← attempt (get x.sha256 machines_index_key)
    found ← absent_or r
    elim found [
      | none ↦ pure []
      | some (b, _) ↦ or_raise (decode_machines_index x b) DepotError.corrupt_index
    ]

  -- Latest: a pointer that does not decode is a corrupt object.
  unfoldable pub latest : Bytes → Depot (Option ManifestSha256)
  latest machine = do
    r ← attempt (get x.sha256 (latest_pointer_key x.sha256 machine))
    found ← absent_or r
    elim found [
      | none ↦ pure none
      | some (b, _) ↦ do
        sha ←
            or_raise (decode_latest_pointer x b)
              (DepotError.corrupt_object (latest_pointer_key x.sha256 machine))
        pure (some sha)
    ]

  -- `preparedManifest`: the bytes are canonical, hash to the identity, and belong to the machine.
  unfoldable pub prepared_manifest : Bytes → ManifestSha256 → Depot PreparedSnapshot
  prepared_manifest machine sha = do
    raise_if (not (is_valid_key sha.value)) DepotError.invalid_manifest_sha
    let key = manifest_object_key x.sha256 machine sha.value
    (b, _) ← get x.sha256 key
    prepared ←
        or_raise (decode_prepared_snapshot x.sha256 x.manifest_json b)
          (DepotError.corrupt_object key)
    raise_if (not (text_eq prepared.sha.value sha.value)) (DepotError.corrupt_object key)
    raise_if
        (not (
          text_eq (safe_catalog_component x.sha256 prepared.manifest.machine_id)
            (safe_catalog_component x.sha256 machine)))
        (DepotError.corrupt_object key)
    pure prepared

  unfoldable pub manifest : Bytes → ManifestSha256 → Depot SnapshotManifest
  manifest machine sha = do prepared ← prepared_manifest machine sha; pure prepared.manifest

  -- The write surface; `machine` is the identity that the handle is bound to.
  unfoldable pub parent : Bytes → Depot (Option ParentSnapshot)
  parent machine = do
    found ← latest machine
    elim found [
      | none ↦ pure none
      | some sha ↦ do
        m ← manifest machine sha
        pure (some (record { manifest = m; sha = sha; blobs = file_shas m.files }))
    ]

  unfoldable pub receipt_kind : Bool → BlobReceiptKind
  receipt_kind true = created
  receipt_kind false = existing

  -- `ensureBlob`, with the file at `srcPath` given by its content: staged and checked against the key,
  -- then written unless it is there.
  unfoldable pub ensure_blob : Bytes → Bytes → Depot BlobReceipt
  unfolding receipt_kind
  ensure_blob key content = do
    stored ← or_raise (put_file x.sha256 x.zstd key content) DepotError.source_failed
    is_new ← put_if_absent (blob_object_key key) stored
    pure (record { key = key; kind = receipt_kind is_new })

  unfoldable pub carried_blob : Option ParentSnapshot → Bytes → Option BlobReceipt
  carried_blob none key = none
  carried_blob (some p) key =
      if contains p.blobs key then some (record { key = key; kind = carried }) else none
