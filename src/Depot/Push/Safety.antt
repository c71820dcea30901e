-- ===== src/Depot/Push/Safety.antt =====
-- What a push does to an Archive that other processes use at the same time.
use aha.Prelude.{
  Bool, true, none, some, [], Option, ok, ◌≡◌, ◌≢◌, Bool-cases, inl, inr, drop, ap, sym, ◌∙◌, arith,
  refl, subst,
}
use aha.Text.{Bytes, codes, text_eq, text_eq_iff}
use aha.Cas.{hash_of, put_file}
use aha.Model.Snapshot.Files.{SnapshotManifest}
use aha.Model.Snapshot.Codec.{
  ManifestSha256, normalise, encode_snapshot_manifest, decode_snapshot_manifest,
}
use aha.Model.Snapshot.Canonical.{decode-encode_snapshot}
use aha.Depot.Keys.{
  safe_catalog_component, manifest_object_key, latest_pointer_key, machines_index_key,
  blob_object_key,
}
use aha.Depot.Keys.Namespaces.{namespaces_apart, blob_apart, index_apart, append_right_inj}
use aha.Depot.Store.{Objects, write, World}
use aha.Depot.Store.Laws.{write_other, write_same}
use aha.Depot.Store.Keeps.{Stable}
use aha.Depot.Codec.{Externals}
use aha.Depot.Push.{BlobSource, push}
use aha.Depot.Push.Keeps.{push-Keeps}

-- A write where there was nothing does not touch what is there.
write_absent_other :
    (o : Objects) (key b k c : Bytes) → o key ≡ none → o k ≡ some c → write o key b k ≡ some c
write_absent_other o key b k c n h = write_other o key b k (λ e. cc) ∙ h

-- Whatever other processes do, and however it ends, a push leaves every object as it is, except the
-- latest pointer of its own machine and the index of machines: an object that is stored when it
-- starts, and that the other processes leave alone, is stored with the same bytes when it ends.
pub push-write_once :
    (x : Externals) (source : BlobSource) (m : SnapshotManifest) (require_parent : Bool)
    (k c : Bytes) (w : World)
    → k ≢ latest_pointer_key x.sha256 m.machine_id
    → k ≢ machines_index_key
    → Stable (λ o. o k ≡ some c) w.events
    → w.objects k ≡ some c
    → (push x source m require_parent w).1.objects k ≡ some c
push-write_once x source m require_parent k c w np ni s h =
    (push-Keeps (λ o. o k ≡ some c) x source m
      (λ o b p. write_other o machines_index_key b k (λ e. ni (sym e)) ∙ p)
      (λ o b p. write_other o (latest_pointer_key x.sha256 m.machine_id) b k (λ e. np (sym e)) ∙ p)
      (λ o b sha e n p.
        write_absent_other o (manifest_object_key x.sha256 m.machine_id sha.value) b k c n p)
      (λ o key content stored e n p. write_absent_other o (blob_object_key key) stored k c n p)
      require_parent w (s, h)).1

blob_object_key_inj : (k l : Bytes) → blob_object_key k ≡ blob_object_key l → k ≡ l
unfolding blob_object_key
blob_object_key_inj k l e = append_right_inj k l (codes ".zst") (ap (drop 9) e)

module _ (x : Externals) where
  -- Every stored blob is a compressed stream whose content hashes to its key.
  abbrev pub BlobsMatch : Objects → Type 0
  BlobsMatch o =
      (k stored : Bytes)
      → o (blob_object_key k) ≡ some stored
      → (content : Bytes) × (x.zstd.decompress stored ≡ some content)
        × (hash_of x.sha256 x.zstd content ≡ k)

  -- Every stored manifest is the canonical encoding of a manifest with the identity that its name
  -- has, captured on a machine of that namespace.
  abbrev pub ManifestsMatch : Objects → Type 0
  ManifestsMatch o =
      (machine sha b : Bytes)
      → o (manifest_object_key x.sha256 machine sha) ≡ some b
      → (m : SnapshotManifest) × (decode_snapshot_manifest x.sha256 x.manifest_json b
          ≡ ok (m, record { value = sha }))
        × (safe_catalog_component x.sha256 m.machine_id ≡ safe_catalog_component x.sha256 machine)

  put_file_parts :
      (key content stored : Bytes)
      → put_file x.sha256 x.zstd key content ≡ ok stored
      → (x.zstd.decompress stored ≡ some content) × (hash_of x.sha256 x.zstd content ≡ key)
  unfolding put_file
  put_file_parts key content stored h =
      ground (
        arith,
        x.zstd.decompress-compress content,
        text_eq_iff (hash_of x.sha256 x.zstd content) key,
      )

  written_other :
      (o : Objects) (key b k : Bytes) {c : Bytes}
      → key ≢ k
      → write o key b k ≡ some c
      → o k ≡ some c
  written_other o key b k n h = sym (write_other o key b k n) ∙ h

  written_same : (o : Objects) (key b k c : Bytes) → key ≡ k → write o key b k ≡ some c → b ≡ c
  written_same o key b k c e h =
      let g : ◌≡◌ {A = Option Bytes} (some b) (some c) =
        sym (subst (λ l. write o key b l ≡ some b) e (write_same o key b)) ∙ h in
      cc (g)

  blob-BlobsMatch :
      (o : Objects) (key content stored : Bytes)
      → put_file x.sha256 x.zstd key content ≡ ok stored
      → BlobsMatch o
      → BlobsMatch (write o (blob_object_key key) stored)
  blob-BlobsMatch o key content stored e h k b p =
      elim (Bool-cases (text_eq (blob_object_key key) (blob_object_key k))) [
        | inl q ↦
            let r = (text_eq_iff (blob_object_key key) (blob_object_key k)).0 q in
            let (d, g) = put_file_parts key content stored e in
            let s = written_same o (blob_object_key key) stored (blob_object_key k) b r p in
            (
              content,
              subst (λ u. x.zstd.decompress u ≡ some content) s d,
              g ∙ blob_object_key_inj key k r,
            )
        | inr q ↦ h k b (
            written_other o (blob_object_key key) stored (blob_object_key k)
              (λ r. cc (q, (text_eq_iff (blob_object_key key) (blob_object_key k)).1 r)) p)
      ]

  other-BlobsMatch :
      (o : Objects) (key b : Bytes)
      → ((k : Bytes) → key ≢ blob_object_key k)
      → BlobsMatch o
      → BlobsMatch (write o key b)
  other-BlobsMatch o key b n h k c p = h k c (written_other o key b (blob_object_key k) (n k) p)

  other-ManifestsMatch :
      (o : Objects) (key b : Bytes)
      → ((machine sha : Bytes) → key ≢ manifest_object_key x.sha256 machine sha)
      → ManifestsMatch o
      → ManifestsMatch (write o key b)
  other-ManifestsMatch o key b n h machine sha c p =
      h machine sha c
        (written_other o key b (manifest_object_key x.sha256 machine sha) (n machine sha) p)

  normalise_machine : (m : SnapshotManifest) → (normalise m).machine_id ≡ m.machine_id
  unfolding normalise
  normalise_machine m = refl

  manifest-ManifestsMatch :
      (o : Objects) (m : SnapshotManifest) (b : Bytes) (sha : ManifestSha256)
      → x.manifest_json.current.keeps (normalise m) ≡ true
      → encode_snapshot_manifest x.sha256 x.manifest_json m ≡ ok (b, sha)
      → ManifestsMatch o
      → ManifestsMatch (write o (manifest_object_key x.sha256 m.machine_id sha.value) b)
  manifest-ManifestsMatch o m b sha v e h machine s c p =
      let key = manifest_object_key x.sha256 m.machine_id sha.value in
      let other = manifest_object_key x.sha256 machine s in
      elim (Bool-cases (text_eq key other)) [
        | inl q ↦
            let r = (text_eq_iff key other).0 q in
            let (same, t) =
              (namespaces_apart x.sha256 x.digest m.machine_id machine sha.value s).0 r in
            let d = decode-encode_snapshot x.sha256 x.manifest_json m b sha v e in
            let f = written_same o key b other c r p in
            (
              normalise m,
              cc (d, f, t),
              ap (safe_catalog_component x.sha256) (normalise_machine m) ∙ same,
            )
        | inr q ↦
            h machine s c (written_other o key b other (λ r. cc (q, (text_eq_iff key other).1 r)) p)
      ]

  abbrev pub Sound : Objects → Type 0
  Sound o = BlobsMatch o × ManifestsMatch o

-- Whatever other processes do that keeps an Archive sound, and however it ends, a push keeps it
-- sound, where every string of the manifest is valid UTF-8: every stored blob decompresses to content
-- that hashes to its key, and every stored manifest is canonical, hashes to its name, and belongs to
-- a machine of its namespace.
pub push-Sound :
    (x : Externals) (source : BlobSource) (m : SnapshotManifest) (require_parent : Bool) (w : World)
    → x.manifest_json.current.keeps (normalise m) ≡ true
    → Stable (Sound x) w.events
    → Sound x w.objects
    → Sound x (push x source m require_parent w).1.objects
push-Sound x source m require_parent w v s h =
    (push-Keeps (Sound x) x source m
      (λ o b (p, q). (
        other-BlobsMatch x o machines_index_key b
            (λ k e. (blob_apart x.sha256 x.digest k [] []).2 (sym e)) p,
        other-ManifestsMatch x o machines_index_key b (λ n t. (index_apart x.sha256 x.digest n t).0)
            q,
      ))
      (λ o b (p, q). (
        other-BlobsMatch x o (latest_pointer_key x.sha256 m.machine_id) b
            (λ k e. (blob_apart x.sha256 x.digest k m.machine_id []).1 (sym e)) p,
        other-ManifestsMatch x o (latest_pointer_key x.sha256 m.machine_id) b
            (λ n t e. (namespaces_apart x.sha256 x.digest n m.machine_id t []).2 (sym e)) q,
      ))
      (λ o b sha e n (p, q). (
        other-BlobsMatch x o (manifest_object_key x.sha256 m.machine_id sha.value) b
            (λ k r. (blob_apart x.sha256 x.digest k m.machine_id sha.value).0 (sym r)) p,
        manifest-ManifestsMatch x o m b sha v e q,
      ))
      (λ o key content stored e n (p, q). (
        blob-BlobsMatch x o key content stored e p,
        other-ManifestsMatch x o (blob_object_key key) stored
            (λ k t. (blob_apart x.sha256 x.digest key k t).0) q,
      ))
      require_parent w (s, h)).1
