-- ===== src/Depot/Upload.antt =====
-- internal/depot/push_v2.go: `PlanUpload`, which counts what a push will do, and the push of a prepared
-- capability. A plan without a source of blobs cannot be made, so the test for it is left out.
mod Obtained
pub mod Agrees
use aha.Prelude.{
  ℕ, suc, Bool, true, false, not, ◌&&◌, List, [], ◌∷◌, Option, none, some, if◌then◌else◌, length,
}
use aha.Text.{Bytes, contains}
use aha.Model.Identity.{new_machine_id, parse_sha256_hex}
use aha.Model.Binding.{is_bound}
use aha.Model.Lifecycle.{ArchiveState}
use aha.Model.Snapshot.Files.{ManifestFile, SnapshotManifest}
use aha.Model.Snapshot.Codec.{encode_snapshot_manifest}
use aha.Depot.Store.{Depot, DepotError, ◌>>=◌, ◌>>◌, pure}
use aha.Depot.Codec.{Externals}
use aha.Depot.Init.{has_blob}
use aha.Depot.Machine.{or_raise, raise_if, BlobReceipt, ParentSnapshot, parent, carried_blob}
use aha.Depot.Prepare.{PreparedUpload}
use aha.Depot.Push.{PushResult, BlobSource, no_parent, push}

pub record UploadPlanSummary : Type 0 where
  pub files : ℕ
  pub blobs_upload : ℕ
  pub blobs_existing : ℕ
  pub blobs_carried : ℕ

-- `ArchiveState`, the test of a capability.
unfoldable pub is_capable : PreparedUpload → Bool
is_capable p = is_bound p.binding && uploads_in p.state
  where
    uploads_in : ArchiveState → Bool
    uploads_in ArchiveState.empty = true
    uploads_in ArchiveState.populated = true
    uploads_in _ = false

unfoldable pub count_present : Bool → UploadPlanSummary → UploadPlanSummary
count_present true s = record s { blobs_existing = suc s.blobs_existing }
count_present false s = record s { blobs_upload = suc s.blobs_upload }

module _ (x : Externals) where
  unfoldable pub count_blob :
      Option BlobReceipt → Bytes → UploadPlanSummary → Depot UploadPlanSummary
  count_blob (some _) key s = pure (record s { blobs_carried = suc s.blobs_carried })
  count_blob none key s = do present ← has_blob x key; pure (count_present present s)

  -- The loop over the files; `seen` is the map of the source.
  unfoldable pub count_uploads :
      Option ParentSnapshot
      → List Bytes
      → UploadPlanSummary
      → List ManifestFile
      → Depot UploadPlanSummary
  count_uploads p seen s [] = pure s
  count_uploads p seen s (f ∷ fs) =
      let skip = count_uploads p seen s fs in
      let handle = (do
        or_raise (parse_sha256_hex f.sha256) DepotError.invalid_blob_key
        s' ← count_blob (carried_blob x p f.sha256) f.sha256 s
        count_uploads p (f.sha256 ∷ seen) s' fs) in
      if contains seen f.sha256 then skip else handle

  unfoldable pub plan_upload : PreparedUpload → SnapshotManifest → Depot UploadPlanSummary
  plan_upload p m = do
    raise_if (not (is_capable p)) DepotError.invalid_capability
    or_raise (encode_snapshot_manifest x.sha256 x.manifest_json m) DepotError.invalid_snapshot
    or_raise (new_machine_id m.machine_id) DepotError.invalid_machine_id
    found ← parent x m.machine_id
    raise_if (contains p.machines m.machine_id && no_parent found) DepotError.damaged_archive
    count_uploads found []
        (record { files = length m.files; blobs_upload = 0; blobs_existing = 0; blobs_carried = 0 })
        m.files

  -- `UploadPlan.Execute` and `PreparedUpload.Push`
  unfoldable pub execute : PreparedUpload → SnapshotManifest → BlobSource → Depot PushResult
  execute p m source = do
    raise_if (not (is_capable p)) DepotError.invalid_capability
    push x source m (contains p.machines m.machine_id)
