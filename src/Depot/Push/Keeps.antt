-- ===== src/Depot/Push/Keeps.antt =====
-- A push keeps a property of the objects that survives each of its writes, whatever its outcome and
-- whenever it stops.
use aha.Prelude.{Bool, none, some, List, [], ◌∷◌, Option, ok, ◌≡◌}
use aha.Text.{Bytes}
use aha.Cas.{put_file}
use aha.Model.Snapshot.Files.{ManifestFile, SnapshotManifest}
use aha.Model.Snapshot.Codec.{ManifestSha256, encode_snapshot_manifest}
use aha.Depot.Keys.{manifest_object_key, latest_pointer_key, machines_index_key, blob_object_key}
use aha.Depot.Store.{Objects, write}
use aha.Depot.Store.Keeps.{
  Keeps, pure-Keeps, raise-Keeps, >>=-Keeps, or_raise-Keeps, raise_if-Keeps, option-Keeps, if-Keeps,
}
use aha.Depot.Codec.{Externals}
use aha.Depot.Machine.{ParentSnapshot, carried_blob}
use aha.Depot.Machine.Keeps.{parent-Keeps, ensure_blob-Keeps}
use aha.Depot.Publish.Keeps.{publish_snapshot-Keeps, set_latest-Keeps, recommit_parent-Keeps}
use aha.Depot.Push.{
  BlobSource, Uploaded, from_source, obtain, upload, is_unchanged, upload_and_publish, reuse,
  against_parent, push,
}

module _ (P : Objects → Type 0) (x : Externals) (source : BlobSource) (m : SnapshotManifest)
    (on_index : (o : Objects) (b : Bytes) → P o → P (write o machines_index_key b))
    (on_pointer : (o : Objects) (b : Bytes)
      → P o
      → P (write o (latest_pointer_key x.sha256 m.machine_id) b))
    (on_manifest : (o : Objects) (b : Bytes) (sha : ManifestSha256)
      → encode_snapshot_manifest x.sha256 x.manifest_json m ≡ ok (b, sha)
      → o (manifest_object_key x.sha256 m.machine_id sha.value) ≡ none
      → P o
      → P (write o (manifest_object_key x.sha256 m.machine_id sha.value) b))
    (on_blob : (o : Objects) (key content stored : Bytes)
      → put_file x.sha256 x.zstd key content ≡ ok stored
      → o (blob_object_key key) ≡ none
      → P o
      → P (write o (blob_object_key key) stored)) where
  from_source-Keeps : (key : Bytes) → Keeps P (from_source x source key)
  unfolding from_source
  from_source-Keeps key = option-Keeps P (source key) _ _ (raise-Keeps P _ _) (λ content.
      ensure_blob-Keeps P x key content (λ o stored e n h. on_blob o key content stored e n h))

  obtain-Keeps : (q : Option ParentSnapshot) (key : Bytes) → Keeps P (obtain x source q key)
  unfolding obtain
  obtain-Keeps q key =
      option-Keeps P (carried_blob x q key) _ _ (from_source-Keeps key) (λ r. pure-Keeps P r)

  upload-Keeps :
      (q : Option ParentSnapshot) (fs : List ManifestFile) (seen : List Bytes) (u : Uploaded)
      → Keeps P (upload x source q seen u fs)
  unfolding upload
  upload-Keeps q [] seen u = pure-Keeps P u
  upload-Keeps q (f ∷ fs) seen u = if-Keeps P _ _ _ (upload-Keeps q fs seen u) (
      or_raise-Keeps P _ _ _
        (λ _ _. >>=-Keeps P _ _ (obtain-Keeps q f.sha256) (λ r. upload-Keeps q fs _ _)))

  upload_and_publish-Keeps :
      (sha : ManifestSha256) (q : Option ParentSnapshot)
      → Keeps P (upload_and_publish x source m sha q)
  unfolding upload_and_publish
  upload_and_publish-Keeps sha q = >>=-Keeps P _ _ (upload-Keeps q m.files [] _) (λ u.
      >>=-Keeps P _ _
        (publish_snapshot-Keeps P x m.machine_id on_index on_pointer m _ q on_manifest)
        (λ p.
          >>=-Keeps P _ _ (set_latest-Keeps P x m.machine_id on_index on_pointer p)
            (λ _. pure-Keeps P _)))

  reuse-Keeps : (p : ParentSnapshot) → Keeps P (reuse x source m p)
  unfolding reuse
  reuse-Keeps p =
      >>=-Keeps P _ _ (recommit_parent-Keeps P x m.machine_id on_index on_pointer p)
        (λ _. pure-Keeps P _)

  is_unchanged-Keeps : (p : ParentSnapshot) → Keeps P (is_unchanged x source p m)
  unfolding is_unchanged
  is_unchanged-Keeps p =
      or_raise-Keeps P _ _ _ (λ _ _. or_raise-Keeps P _ _ _ (λ _ _. pure-Keeps P _))

  against_parent-Keeps :
      (sha : ManifestSha256) (q : Option ParentSnapshot) → Keeps P (against_parent x source m sha q)
  unfolding against_parent
  against_parent-Keeps sha none = upload_and_publish-Keeps sha none
  against_parent-Keeps sha (some p) =
      >>=-Keeps P _ _ (is_unchanged-Keeps p)
        (λ b. if-Keeps P b _ _ (reuse-Keeps p) (upload_and_publish-Keeps sha (some p)))

  pub push-Keeps : (require_parent : Bool) → Keeps P (push x source m require_parent)
  unfolding push
  push-Keeps require_parent = or_raise-Keeps P _ _ _ (λ r _. or_raise-Keeps P _ _ _ (λ _ _.
      >>=-Keeps P _ _ (parent-Keeps P x m.machine_id)
        (λ q. raise_if-Keeps P _ _ _ (λ _. against_parent-Keeps r.1 q))))
