-- ===== src/Depot/Marker.antt =====
-- The marker of an Archive, in internal/depot/depot_v2.go: what a reader and a writer accept, and
-- `Init`, which creates it. The marker lies outside the prefix of the Archive's data.
pub mod Accepted
pub mod Writable
use aha.Prelude.{
  Bool, true, not, ◌||◌, ◌&&◌, List, [], ◌∷◌, ◌++◌, Option, none, some, Result, ok, err, ◌>>=◌,
  ◌>>◌, fail_if, if◌then◌else◌, leb, ◌==◌,
}
use aha.Prelude.Int.{ℤ, pos, int_eq, int_ltb}
use aha.Text.{Bytes, codes, text_eq, contains}
use aha.Text.Space.{trim_space, is_blank}
use aha.Encoding.Json.{Json, newline}
use aha.Model.Binding.{ArchiveBinding, new_archive_binding}
use aha.Depot.Codec.{unmarshal}

pub record Marker : Type 0 where
  pub schema : Bytes
  pub depot_id : Bytes
  pub layout : Bytes
  pub format_major : ℤ
  pub format_minor : ℤ
  pub required_features : List Bytes
  pub optional_features : List Bytes
  pub created_at : Bytes
  pub created_by : Bytes

-- `unsupported_format` has the major and minor numbers found, and those supported.
pub data MarkerError : Type 0 where
  malformed identity_missing : MarkerError
  unsupported_format : ℤ → ℤ → ℤ → ℤ → MarkerError
  invalid_feature_name duplicate_feature missing_baseline missing_fence : MarkerError
  unsupported_feature : Bytes → MarkerError
  write_upgrade_required incomplete_binding : MarkerError

abbrev pub marker_schema_v2 : Bytes
marker_schema_v2 = codes "aha-depot/v2"

abbrev pub layout_version_v2 : Bytes
layout_version_v2 = codes "v2"

abbrev pub marker_schema_current : Bytes
marker_schema_current = codes "aha-depot/v3"

abbrev pub layout_version_current : Bytes
layout_version_current = codes "v3"

abbrev pub full_manifest_feature : Bytes
full_manifest_feature = codes "full-manifest-v2"

abbrev pub archive_writer_fence_feature : Bytes
archive_writer_fence_feature = codes "writer-fence-v1"

abbrev pub supported_archive_features : List Bytes
supported_archive_features = full_manifest_feature ∷ archive_writer_fence_feature ∷ []

unfoldable pub is_legacy : Marker → Bool
is_legacy m = text_eq m.schema marker_schema_v2 && text_eq m.layout layout_version_v2

unfoldable pub is_current : Marker → Bool
is_current m = text_eq m.schema marker_schema_current && text_eq m.layout layout_version_current

-- The loop over the characters of a name; none outside ASCII passes, so bytes serve.
feature_bytes : Bytes → Bool
feature_bytes [] = true
feature_bytes (r ∷ s) =
    ((leb b'a' r && leb r b'z') || (leb b'0' r && leb r b'9') || r == b'-') && feature_bytes s

unfoldable pub validate_archive_feature_name : Bytes → Result MarkerError (Unit {0})
unfolding feature_bytes
validate_archive_feature_name f = do
  fail_if (is_blank f || not (text_eq f (trim_space f))) invalid_feature_name
  fail_if (not (feature_bytes f)) invalid_feature_name

-- The loops over the two lists; the first argument is `seen`, which the first loop returns.
required_loop : List Bytes → List Bytes → Result MarkerError (List Bytes)
required_loop seen [] = ok seen
required_loop seen (f ∷ fs) = do
  validate_archive_feature_name f
  fail_if (contains seen f) duplicate_feature
  fail_if (not (contains supported_archive_features f)) (unsupported_feature f)
  required_loop (f ∷ seen) fs

optional_loop : List Bytes → List Bytes → Result MarkerError (Unit {0})
optional_loop seen [] = ok tt
optional_loop seen (f ∷ fs) = do
  validate_archive_feature_name f
  fail_if (contains seen f) duplicate_feature
  optional_loop (f ∷ seen) fs

-- A marker of the legacy format may leave its major number out, which then reads 0.
found_major : Marker → ℤ
found_major m = if is_legacy m && int_eq m.format_major (pos 0) then pos 2 else m.format_major

supported_major : Marker → ℤ
supported_major m = if is_legacy m then pos 2 else pos 3

-- `decodeAndValidateMarkerForRead` behind the decoding.
unfoldable pub check_marker : Marker → Result MarkerError (Unit {0})
unfolding required_loop optional_loop found_major supported_major
check_marker m = do
  fail_if (is_blank m.depot_id) identity_missing
  fail_if (not (is_legacy m) && not (is_current m))
      (unsupported_format m.format_major m.format_minor (pos 3) (pos 0))
  fail_if (not (int_eq (found_major m) (supported_major m)) || int_ltb (pos 0) m.format_minor)
      (unsupported_format (found_major m) m.format_minor (supported_major m) (pos 0))
  seen ← required_loop [] m.required_features
  fail_if (not (contains seen full_manifest_feature) && is_current m) missing_baseline
  fail_if (is_current m && not (contains seen archive_writer_fence_feature)) missing_fence
  optional_loop seen m.optional_features

-- The marker of `markerV2Bytes`: the identity comes from the clock, and so does the time.
unfoldable pub fresh_marker : Bytes → Bytes → Bytes → Marker
fresh_marker depot_id created_at created_by = record {
  schema = marker_schema_current;
  depot_id = depot_id;
  layout = layout_version_current;
  format_major = pos 3;
  format_minor = pos 0;
  required_features = supported_archive_features;
  optional_features = [];
  created_at = created_at;
  created_by = created_by;
}

-- encoding/json is the parameter.
module _ (json : Json Marker) where
  decode_marker : Bytes → Result MarkerError Marker
  unfolding unmarshal
  decode_marker b = elim (unmarshal json b) [ none ↦ err malformed | some m ↦ ok m ]

  unfoldable pub decode_and_validate_marker_for_read : Bytes → Result MarkerError Marker
  unfolding decode_marker
  decode_and_validate_marker_for_read b = do m ← decode_marker b; check_marker m; ok m

  unfoldable pub validate_marker_for_write : Bytes → Result MarkerError (Unit {0})
  validate_marker_for_write b = do
    m ← decode_and_validate_marker_for_read b
    fail_if (not (is_current m)) write_upgrade_required

  unfoldable pub marker_bytes : Marker → Bytes
  marker_bytes m = json.marshal m ++ newline

  unfoldable pub bound : Option ArchiveBinding → Result MarkerError ArchiveBinding
  bound none = err incomplete_binding
  bound (some b) = ok b

  unfoldable pub archive_binding_from_marker : Bytes → Bytes → Result MarkerError ArchiveBinding
  unfolding bound
  archive_binding_from_marker b address = do
    m ← decode_and_validate_marker_for_read b
    bound (new_archive_binding m.depot_id address)
