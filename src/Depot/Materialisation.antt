-- ===== src/Depot/Materialisation.antt =====
-- internal/depot/materialisation_plan.go: the changed manifests, checked and spooled before a Workspace
-- changes, and read back one at a time. The spool's directory and the scratch table of blobs are
-- values; a failure of the local disk, which ends the call with its error, is left out.
pub mod Agrees
pub mod Selects
use aha.Prelude.{ℕ, Bool, true, false, not, ◌||◌, List, [], ◌∷◌, ◌++◌, if◌then◌else◌, length}
use aha.Prelude.Int.{ℤ, pos}
use aha.Text.{Bytes, text_eq, contains}
use aha.Text.Dict.{Dict}
use aha.Cas.{is_valid_key}
use aha.Model.Identity.{parse_sha256_hex}
use aha.Model.Snapshot.Files.{ManifestFile}
use aha.Model.Snapshot.Codec.{ManifestSha256, PreparedSnapshot, decode_prepared_snapshot}
use aha.Depot.Store.{Depot, DepotError, ◌>>=◌, ◌>>◌, pure, lift, check_context}
use aha.Depot.Codec.{Externals}
use aha.Depot.Machine.{or_raise, raise_if, file_shas}
use aha.Depot.Init.{open_blob}
use aha.Depot.Download.{
  DownloadPlan, DownloadPlanSummary, PreparedPull, Known, is_materialised, plan_machines, planned,
  selected_prepared_manifest, require_manifest_adapters, add_unknown,
}

pub record SpooledManifest : Type 0 where
  pub machine : Bytes
  pub sha : ManifestSha256
  pub content : Bytes

pub record MaterialisationPlan : Type 0 where
  pub reader : PreparedPull
  pub latest : Dict ManifestSha256
  pub spooled : List SpooledManifest
  pub summary : DownloadPlanSummary

-- The plan while it is made, and the rows of the scratch table.
pub record Draft : Type 0 where
  pub spooled : List SpooledManifest
  pub rows : List Bytes
  pub unknown_blobs : ℕ
  pub unknown_bytes : ℤ

-- `insert or ignore into blobs(sha)`: whether a row was inserted, and the table.
unfoldable pub insert_or_ignore : List Bytes → Bytes → Bool × List Bytes
insert_or_ignore rows sha = if contains rows sha then (false, rows) else (true, sha ∷ rows)

count_inserted : Known → ManifestFile → List Bytes → Draft → Depot Draft
count_inserted known f rows d = do
  or_raise (parse_sha256_hex f.sha256) DepotError.invalid_blob_key
  present ← lift (known f.sha256)
  let (blobs, bytes) = add_unknown present f d.unknown_blobs d.unknown_bytes
  pure (record d { rows = rows; unknown_blobs = blobs; unknown_bytes = bytes })

insert_file : Known → Draft → ManifestFile → Depot Draft
unfolding count_inserted
insert_file known d f =
    let (inserted, rows) = insert_or_ignore d.rows f.sha256 in
    if inserted then count_inserted known f rows d else pure d

insert_files : Known → Draft → List ManifestFile → Depot Draft
unfolding insert_file
insert_files known d [] = pure d
insert_files known d (f ∷ fs) = do d' ← insert_file known d f; insert_files known d' fs

unfoldable pub spool : Draft → SpooledManifest → Draft
spool d s = record d { spooled = d.spooled ++ s ∷ [] }

-- The body of the loop behind the fetched manifest: checked, spooled and counted.
unfoldable pub take_manifest :
    DownloadPlan → Dict Bytes → Known → Draft → Bytes → PreparedSnapshot → Depot Draft
unfolding insert_files
take_manifest p supported known d machine prepared = do
  require_manifest_adapters supported prepared.manifest.adapters
  raise_if (not (text_eq prepared.sha.value (planned p machine).value)) DepotError.changed_identity
  let s : SpooledManifest = record {
    machine = machine;
    sha = planned p machine;
    content = prepared.canonical;
  }
  insert_files known (spool d s) prepared.manifest.files

-- The finished plan.
plan_of : DownloadPlan → Draft → MaterialisationPlan
plan_of p d = record {
  reader = p.reader;
  latest = p.latest;
  spooled = d.spooled;
  summary = record {
    machines = length (plan_machines p);
    latest_snapshots = length p.latest;
    unknown_blobs = d.unknown_blobs;
    unknown_bytes = d.unknown_bytes;
  };
}

module _ (x : Externals) where
  unfoldable pub prepare_machine : DownloadPlan → Dict Bytes → Known → Draft → Bytes → Depot Draft
  unfolding take_manifest
  prepare_machine p supported known d machine = do
    prepared ← selected_prepared_manifest x p machine
    take_manifest p supported known d machine prepared

  unfoldable pub prepare_loop :
      DownloadPlan → Dict Bytes → Dict Bytes → Known → Draft → List Bytes → Depot Draft
  unfolding prepare_machine
  prepare_loop p materialised supported known d [] = pure d
  prepare_loop p materialised supported known d (machine ∷ machines) =
      let skip = prepare_loop p materialised supported known d machines in
      let handle = (do
        d' ← prepare_machine p supported known d machine
        prepare_loop p materialised supported known d' machines) in
      if is_materialised materialised machine (planned p machine) then skip else handle

  unfoldable pub prepare_materialisation :
      DownloadPlan → Dict Bytes → Dict Bytes → Known → Depot MaterialisationPlan
  unfolding prepare_loop plan_of
  prepare_materialisation p materialised supported known = do
    d ←
        prepare_loop p materialised supported known
          (record { spooled = []; rows = []; unknown_blobs = 0; unknown_bytes = pos 0 })
          (plan_machines p)
    pure (plan_of p d)

  -- The argument `open` that a callback is given: only blobs of the manifest at hand.
  unfoldable pub open_allowed : List Bytes → Bytes → Depot Bytes
  open_allowed allowed key = do
    raise_if (not (is_valid_key key) || not (contains allowed key)) DepotError.outside_latest
    open_blob x key

  -- `ForEachManifest`: the callback changes a state of the caller's.
  unfoldable pub for_each_manifest :
      {S : Type 0}
      → List SpooledManifest
      → (Bytes → PreparedSnapshot → (Bytes → Depot Bytes) → S → Depot S)
      → S
      → Depot S
  for_each_manifest [] apply s = pure s
  for_each_manifest (selected ∷ rest) apply s = do
    check_context
    prepared ←
        or_raise (decode_prepared_snapshot x.sha256 x.manifest_json selected.content)
          DepotError.invalid_snapshot
    raise_if
        (not (text_eq prepared.sha.value selected.sha.value)
          || not (text_eq prepared.manifest.machine_id selected.machine))
        DepotError.changed_identity
    s' ← apply selected.machine prepared (open_allowed (file_shas prepared.manifest.files)) s
    for_each_manifest rest apply s'
