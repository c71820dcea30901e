-- ===== src/Model/Snapshot/Codec.antt =====
-- `EncodeSnapshotManifest`, `DecodeSnapshotManifest`, `SnapshotStateSHA256` and `PreparedSnapshot` of
-- internal/model/snapshot_manifest.go. crypto/sha256 and encoding/json are parameters.
use aha.Prelude.{
  ◌≡◌, true, false, not, [], ◌++◌, Result, ok, err, ◌>>=◌, ◌>>◌, fail_if, if◌then◌else◌, none, some,
}
use aha.Text.{Bytes, codes, text_eq}
use aha.Text.Order.{sort_by, sort_texts}
use aha.Encoding.Hex
use aha.Encoding.Json.{Json, newline}
use aha.Model.Identity.{Sha256Hex}
use aha.Model.Snapshot.Files.{SnapshotManifest, LegacySnapshotManifestV2}
use aha.Model.Snapshot.Validate.{
  SnapshotError, validate_snapshot_manifest, schema_v2, trailing_data, malformed_json,
  not_canonical,
}

-- The identity of a manifest, and a validated manifest with its canonical bytes.
pub record ManifestSha256 : Type 0 where
  pub value : Bytes

pub record PreparedSnapshot : Type 0 where
  pub manifest : SnapshotManifest
  pub canonical : Bytes
  pub sha : ManifestSha256

-- What `EncodeSnapshotManifest` sorts before it validates.
unfoldable pub normalise : SnapshotManifest → SnapshotManifest
normalise m = record m {
  files = sort_by (λ f. f.relative_path) m.files;
  required_features = sort_texts m.required_features;
  optional_features = sort_texts m.optional_features;
}

unfoldable pub to_legacy : SnapshotManifest → LegacySnapshotManifestV2
to_legacy m = record {
  schema = m.schema;
  machine_id = m.machine_id;
  machine_label = m.machine_label;
  captured_at = m.captured_at;
  created_by = m.created_by;
  source = m.source;
  policy = m.policy;
  adapters = m.adapters;
  files = m.files;
}

-- The decoder fills in what a document of schema v2 does not have.
unfoldable pub from_legacy : LegacySnapshotManifestV2 → SnapshotManifest
from_legacy l = record {
  schema = l.schema;
  required_features = [];
  optional_features = [];
  machine_id = l.machine_id;
  machine_label = l.machine_label;
  captured_at = l.captured_at;
  created_by = l.created_by;
  source = l.source;
  policy = l.policy;
  adapters = l.adapters;
  files = l.files;
}

-- encoding/json for manifests. Both formats are read by one decoder, that of `SnapshotManifest`.
pub record ManifestJson : Type 0 where
  pub current : Json SnapshotManifest
  pub marshal_legacy : LegacySnapshotManifestV2 → Bytes
  pub decode-marshal_legacy :
      (l : LegacySnapshotManifestV2)
      → current.keeps (from_legacy l) ≡ true
      → current.decode (marshal_legacy l ++ newline) ≡ some (from_legacy l, false)

module _ (sha256 : Bytes → Bytes) (json : ManifestJson) where
  unfoldable pub manifest_bytes : SnapshotManifest → Bytes
  manifest_bytes m =
      if text_eq m.schema schema_v2
      then json.marshal_legacy (to_legacy m) ++ newline
      else json.current.marshal m ++ newline

  unfoldable pub sha256_hex : Bytes → Bytes
  sha256_hex b = Hex.encode (sha256 b)

  unfoldable pub encode_snapshot_manifest :
      SnapshotManifest → Result SnapshotError (Bytes × ManifestSha256)
  encode_snapshot_manifest m = do
    validate_snapshot_manifest (normalise m)
    ok (manifest_bytes (normalise m), record { value = sha256_hex (manifest_bytes (normalise m)) })

  unfoldable pub decode_document : Bytes → Result SnapshotError SnapshotManifest
  decode_document b = elim (json.current.decode b) [
    | none ↦ err malformed_json
    | some (m, more) ↦ if more then err trailing_data else ok m
  ]

  unfoldable pub decode_snapshot_manifest :
      Bytes → Result SnapshotError (SnapshotManifest × ManifestSha256)
  unfolding decode_document
  decode_snapshot_manifest b = do
    m ← decode_document b
    (canonical, sha) ← encode_snapshot_manifest m
    fail_if (not (text_eq canonical b)) not_canonical
    ok (m, sha)

  unfoldable pub prepare_snapshot : SnapshotManifest → Result SnapshotError PreparedSnapshot
  prepare_snapshot m = do
    (canonical, sha) ← encode_snapshot_manifest m
    ok (record { manifest = m; canonical = canonical; sha = sha })

  unfoldable pub decode_prepared_snapshot : Bytes → Result SnapshotError PreparedSnapshot
  decode_prepared_snapshot b = do
    (manifest, sha) ← decode_snapshot_manifest b
    ok (record { manifest = manifest; canonical = b; sha = sha })

  unfoldable pub snapshot_state_sha256 : SnapshotManifest → Result SnapshotError Sha256Hex
  snapshot_state_sha256 m = do
    (b, _) ←
        encode_snapshot_manifest
          (record m { captured_at = codes "state"; created_by = codes "state" })
    ok (record { value = sha256_hex b })
