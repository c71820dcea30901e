-- ===== src/Depot/Push.antt =====
-- internal/depot/push_v2.go: one push of a captured snapshot. Progress reports are left out, and so
-- are the counts that the source returns beside an error.
pub mod Keeps
pub mod Safety
use aha.Prelude.{
  ℕ, suc, Bool, true, false, ◌&&◌, List, [], ◌∷◌, ◌++◌, Option, none, some, if◌then◌else◌, length,
}
use aha.Text.{Bytes, text_eq, contains}
use aha.Model.Identity.{new_machine_id, parse_sha256_hex}
use aha.Model.Snapshot.Files.{ManifestFile, SnapshotManifest}
use aha.Model.Snapshot.Codec.{ManifestSha256, encode_snapshot_manifest, snapshot_state_sha256}
use aha.Depot.Store.{Depot, DepotError, ◌>>=◌, ◌>>◌, pure, raise}
use aha.Depot.Codec.{Externals}
use aha.Depot.Machine.{
  or_raise, raise_if, BlobReceipt, BlobReceiptKind, created, existing, carried, ParentSnapshot,
  parent, ensure_blob, carried_blob,
}
use aha.Depot.Publish.{recommit_parent, publish_snapshot, set_latest}

pub record PushResult : Type 0 where
  pub manifest_sha : ManifestSha256
  pub reused : Bool
  pub files : ℕ
  pub blobs_uploaded : ℕ
  pub blobs_existing : ℕ
  pub blobs_carried : ℕ

-- `BlobSource`: the content of the file that holds a blob's bytes, or the error of finding or reading
-- it.
abbrev pub BlobSource : Type 0
BlobSource = Bytes → Option Bytes

pub record Uploaded : Type 0 where
  pub receipts : List BlobReceipt
  pub uploaded : ℕ
  pub existing_blobs : ℕ
  pub carried_blobs : ℕ

unfoldable pub count : BlobReceipt → Uploaded → Uploaded
count r u = counted r.kind (record u { receipts = u.receipts ++ r ∷ [] })
  where
    counted : BlobReceiptKind → Uploaded → Uploaded
    counted created u' = record u' { uploaded = suc u'.uploaded }
    counted existing u' = record u' { existing_blobs = suc u'.existing_blobs }
    counted carried u' = record u' { carried_blobs = suc u'.carried_blobs }

unfoldable pub no_parent : Option ParentSnapshot → Bool
no_parent none = true
no_parent (some _) = false

module _ (x : Externals) (source : BlobSource) where
  unfoldable pub from_source : Bytes → Depot BlobReceipt
  from_source key = elim (source key) [
    | none ↦ raise DepotError.source_failed
    | some content ↦ ensure_blob x key content
  ]

  -- A receipt for one blob: carried from the parent, or ensured.
  unfoldable pub obtain : Option ParentSnapshot → Bytes → Depot BlobReceipt
  unfolding from_source
  obtain p key = elim (carried_blob x p key) [ none ↦ from_source key | some r ↦ pure r ]

  -- The loop over the files; the first argument is `seen`.
  unfoldable pub upload :
      Option ParentSnapshot → List Bytes → Uploaded → List ManifestFile → Depot Uploaded
  unfolding obtain count
  upload p seen u [] = pure u
  upload p seen u (f ∷ fs) =
      let skip = upload p seen u fs in
      let handle = (do
        or_raise (parse_sha256_hex f.sha256) DepotError.invalid_blob_key
        r ← obtain p f.sha256
        upload p (f.sha256 ∷ seen) (count r u) fs) in
      if contains seen f.sha256 then skip else handle

  unfoldable pub is_unchanged : ParentSnapshot → SnapshotManifest → Depot Bool
  is_unchanged p m = do
    a ←
        or_raise (snapshot_state_sha256 x.sha256 x.manifest_json p.manifest)
          DepotError.invalid_snapshot
    b ← or_raise (snapshot_state_sha256 x.sha256 x.manifest_json m) DepotError.invalid_snapshot
    pure (text_eq a.value b.value)

  -- From the uploads to the moved pointer.
  unfoldable pub upload_and_publish :
      SnapshotManifest → ManifestSha256 → Option ParentSnapshot → Depot PushResult
  unfolding upload
  upload_and_publish m sha p = do
    u ←
        upload p [] (record { receipts = []; uploaded = 0; existing_blobs = 0; carried_blobs = 0 })
          m.files
    published ← publish_snapshot x m.machine_id m u.receipts p
    set_latest x m.machine_id published
    pure (record {
      manifest_sha = sha;
      reused = false;
      files = length m.files;
      blobs_uploaded = u.uploaded;
      blobs_existing = u.existing_blobs;
      blobs_carried = u.carried_blobs;
    })

  unfoldable pub reuse : SnapshotManifest → ParentSnapshot → Depot PushResult
  reuse m p = do
    recommit_parent x m.machine_id p
    pure (record {
      manifest_sha = p.sha;
      reused = true;
      files = length m.files;
      blobs_uploaded = 0;
      blobs_existing = 0;
      blobs_carried = 0;
    })

  unfoldable pub against_parent :
      SnapshotManifest → ManifestSha256 → Option ParentSnapshot → Depot PushResult
  unfolding is_unchanged upload_and_publish reuse
  against_parent m sha none = upload_and_publish m sha none
  against_parent m sha (some p) = do
    same ← is_unchanged p m
    if same then reuse m p else upload_and_publish m sha (some p)

  -- `pushV2WithOptions`
  unfoldable pub push : SnapshotManifest → Bool → Depot PushResult
  unfolding against_parent no_parent
  push m require_parent = do
    (_, sha) ←
        or_raise (encode_snapshot_manifest x.sha256 x.manifest_json m) DepotError.invalid_snapshot
    or_raise (new_machine_id m.machine_id) DepotError.invalid_machine_id
    p ← parent x m.machine_id
    raise_if (require_parent && no_parent p) DepotError.damaged_archive
    against_parent m sha p
