-- ===== src/Model/Snapshot/Validate.antt =====
-- `validateSnapshotManifest`, `validateSnapshotFeatures` and `ValidateSourceDataPath` of
-- internal/model/snapshot_manifest.go. `fmt.Errorf` is a constructor of `SnapshotError`.
pub mod Sound
use aha.Prelude.{
  ℕ, ◌==◌, Bool, false, not, ◌||◌, ◌&&◌, List, [], ◌∷◌, ◌++◌, Result, ok, err, ◌>>=◌, ◌>>◌, fail_if,
  if◌then◌else◌, length, ltb, Option, none, some,
}
use aha.Prelude.Int.{is_negative}
use aha.Text.{Bytes, codes, text_eq, has_prefix, contains_byte, contains_text, contains}
use aha.Text.Space.{trim_space, is_blank}
use aha.Text.Order.{text_ltb}
use aha.Text.Path.{is_abs, clean}
use aha.Model.Identity.{parse_sha256_hex}
use aha.Model.Snapshot.Files.{ManifestAdapt, ManifestFile, SnapshotManifest}

pub data SnapshotError : Type 0 where
  features_in_v2 unsupported_schema machine_id_required captured_at_required : SnapshotError
  unsupported_path_mode unsupported_redaction too_many_files : SnapshotError
  adapter_incomplete duplicate_adapter unsafe_path duplicate_path file_source_required :
      SnapshotError
  undeclared_source misplaced_session misplaced_artifact unsupported_kind : SnapshotError
  invalid_blob_key negative_size unsupported_copy_state : SnapshotError
  invalid_feature duplicate_feature unsupported_feature missing_feature : SnapshotError
  malformed_json trailing_data not_canonical : SnapshotError

abbrev pub schema_v3 : Bytes
schema_v3 = codes "aha-snapshot-manifest/v3"

abbrev pub schema_v2 : Bytes
schema_v2 = codes "aha-snapshot-manifest/v2"

-- `supportedRequiredSnapshotFeatures`, in the order that `RequiredSnapshotFeatures` sorts them to.
abbrev pub required_snapshot_features : List Bytes
required_snapshot_features =
    codes "closed-copy-state-v1" ∷ codes "closed-policy-v1" ∷ codes "full-manifest-v2" ∷ []

abbrev pub max_snapshot_files : ℕ
max_snapshot_files = 200000

abbrev Check : Type 0
Check = Result SnapshotError (Unit {0})

-- blank, or with white space at an end
abbrev malformed_feature : Bytes → Bool
malformed_feature f = is_blank f || not (text_eq (trim_space f) f)

-- The first argument is `seen`, which the loop returns.
required_features_loop : List Bytes → List Bytes → Result SnapshotError (List Bytes)
required_features_loop seen [] = ok seen
required_features_loop seen (f ∷ fs) = do
  fail_if (malformed_feature f) invalid_feature
  fail_if (contains seen f) duplicate_feature
  fail_if (not (contains required_snapshot_features f)) unsupported_feature
  required_features_loop (f ∷ seen) fs

baseline_loop : List Bytes → List Bytes → Check
baseline_loop seen [] = ok tt
baseline_loop seen (f ∷ fs) = do
  fail_if (not (contains seen f)) missing_feature
  baseline_loop seen fs

optional_features_loop : List Bytes → List Bytes → Check
optional_features_loop seen [] = ok tt
optional_features_loop seen (f ∷ fs) = do
  fail_if (malformed_feature f) invalid_feature
  fail_if (contains seen f) duplicate_feature
  optional_features_loop (f ∷ seen) fs

pub validate_snapshot_features : List Bytes → List Bytes → Check
unfolding required_features_loop baseline_loop optional_features_loop
validate_snapshot_features required optional = do
  seen ← required_features_loop [] required
  baseline_loop seen required_snapshot_features
  optional_features_loop seen optional

unfoldable pub validate_source_data_path : Bytes → Check
validate_source_data_path name = do
  fail_if
      (text_eq name []
        || text_eq name (codes ".")
        || text_eq name (codes "..")
        || is_abs name
        || not (text_eq (clean name) name)
        || contains_byte name 92
        || has_prefix name (codes "../")
        || contains_text name (codes "/../")
        || has_prefix name (codes "./")
        || contains_text name (codes "/./"))
      unsafe_path
  fail_if
      (text_eq name (codes "manifest.json")
        || text_eq name (codes "checksums/sha256sums.txt")
        || has_prefix name (codes "checksums/"))
      unsafe_path

-- The names declared so far, in place of the map `adapterVersions`.
adapters_loop : List Bytes → List ManifestAdapt → Result SnapshotError (List Bytes)
adapters_loop declared [] = ok declared
adapters_loop declared (a ∷ as') = do
  fail_if (is_blank a.name || is_blank a.version) adapter_incomplete
  fail_if (contains declared a.name) duplicate_adapter
  adapters_loop (a.name ∷ declared) as'

-- The test for a path that does not increase; there is no previous path at the first file.
abbrev not_after : Option Bytes → Bytes → Bool
not_after none path = false
not_after (some prev) path = not (text_ltb prev path)

validate_kind : ManifestFile → Check
validate_kind f =
    if text_eq f.kind (codes "session")
    then fail_if
        (not (has_prefix f.relative_path (codes "sources/" ++ (f.source ++ codes "/sessions/"))))
        misplaced_session
    else if text_eq f.kind (codes "artifact")
    then fail_if
        (not (has_prefix f.relative_path (codes "sources/" ++ (f.source ++ codes "/artifacts/"))))
        misplaced_artifact
    else err unsupported_kind

-- `NewBlobKey`, which is `ParseSHA256Hex` with a wrapped error.
abbrev blob_key_check : Bytes → Check
blob_key_check sha = elim (parse_sha256_hex sha) [ ok _ ↦ ok tt | err _ ↦ err invalid_blob_key ]

validate_file : List Bytes → Option Bytes → ManifestFile → Check
unfolding validate_kind
validate_file declared prev f = do
  validate_source_data_path f.relative_path
  fail_if (not_after prev f.relative_path) duplicate_path
  fail_if (is_blank f.source) file_source_required
  fail_if (not (contains declared f.source)) undeclared_source
  validate_kind f
  blob_key_check f.sha256
  fail_if (is_negative f.bytes) negative_size
  fail_if (not (text_eq f.copy_state (codes "stable") || text_eq f.copy_state (codes "unstable")))
      unsupported_copy_state

files_loop : List Bytes → Option Bytes → List ManifestFile → Check
files_loop declared prev [] = ok tt
files_loop declared prev (f ∷ fs) = do
  validate_file declared prev f
  files_loop declared (some f.relative_path) fs

validate_schema : SnapshotManifest → Check
validate_schema m =
    if text_eq m.schema schema_v3
    then validate_snapshot_features m.required_features m.optional_features
    else if text_eq m.schema schema_v2
    then fail_if (not (length m.required_features == 0) || not (length m.optional_features == 0))
        features_in_v2
    else err unsupported_schema

unfoldable pub validate_snapshot_manifest : SnapshotManifest → Check
unfolding adapters_loop files_loop validate_schema validate_file validate_snapshot_features
validate_snapshot_manifest m = do
  validate_schema m
  fail_if (is_blank m.machine_id) machine_id_required
  fail_if (is_blank m.captured_at) captured_at_required
  fail_if (not (text_eq m.policy.path_mode (codes "raw"))) unsupported_path_mode
  fail_if
      (not (text_eq m.policy.redaction (codes "none-v1"))
        && not (text_eq m.policy.redaction (codes "v1")))
      unsupported_redaction
  fail_if (ltb max_snapshot_files (length m.files)) too_many_files
  declared ← adapters_loop [] m.adapters
  files_loop declared none m.files
