-- ===== src/Examples/Inspections.antt =====
-- The inspection of an Archive with one snapshot.
use aha.Depot.Init.{reject_legacy_archive}
use aha.Depot.Inspect.{note}
use aha.Depot.Inspect.{no_problems}
use aha.Depot.Codec.{decode_latest_pointer}
use aha.Depot.Inspect.{inspect_layout}
use aha.Depot.Inspect.{after_binding}
use aha.Model.Binding.{new_archive_binding}
use aha.Depot.Inspect.{after_latest}
use aha.Depot.Inspect.{frozen_plan}
use aha.Prelude.Int.{int_eq}
use aha.Depot.Marker.{is_current}
use aha.Depot.Marker.{fresh_marker}
use aha.Depot.Marker.{validate_archive_feature_name}
use aha.Depot.Marker.{bound}
use aha.Depot.Inspect.{vector_of}
use aha.Depot.Inspect.{inspect_latest_metadata}
use aha.Depot.Marker.{is_legacy}
use aha.Text.Dict.{put}
use aha.Depot.Inspect.{inspect_data}
use aha.Depot.Inspect.{inspect_found}
use aha.Depot.Inspect.{is_corrupt}
use aha.Prelude.Int.{int_ltb}
use aha.Depot.Inspect.{is_unreadable}
use aha.Text.Dict.{delete}
use aha.Depot.Prepare.{schema_is_current}
use aha.Depot.Inspect.{inspect_marker}
use aha.Depot.Inspect.{after_state}
use aha.Depot.Inspect.{problem_if}
use aha.Depot.Machine.{manifest}
use aha.Depot.Marker.{check_marker}
use aha.Model.Snapshot.Codec.{snapshot_state_sha256}
use aha.Depot.Machine.{latest}
use aha.Depot.Prepare.{continue_in}
use aha.Depot.Inspect.{is_current_data}
use aha.Depot.Inspect.{after_manifest}
use aha.Depot.Prepare.{marker_then_data}
use aha.Depot.Marker.{archive_binding_from_marker}
use aha.Depot.Marker.{decode_and_validate_marker_for_read}
use aha.Depot.Machine.{machines}
use aha.Depot.Keys.{latest_pointer_key, manifest_object_key}
use aha.Model.Snapshot.Codec.{manifest_bytes}
use aha.Text.{has_prefix}
use aha.Model.Snapshot.Codec.{to_legacy}
use aha.Model.Snapshot.Codec.{decode_prepared_snapshot}
use aha.Model.Snapshot.Codec.{encode_snapshot_manifest}
use aha.Text.{contains_text}
use aha.Text.Space.{is_blank}
use aha.Encoding.Hex
use aha.Depot.Store.{primitive}
use aha.Depot.Keys.{safe_catalog_component}
use aha.Prelude.Int.{◌+ℤ◌}
use aha.Text.{contains_byte}
use aha.Text.{split}
use aha.Depot.Store.{pure}
use aha.Text.Space.{space_width}
use aha.Text.{text_eq}
use aha.Depot.Store
use aha.Depot.Machine.{prepared_manifest}
use aha.Model.Snapshot.Validate.{validate_snapshot_manifest}
use aha.Model.Snapshot.Codec.{normalise}
use aha.Text.Space.{trim_space}
use aha.Text.Order.{sort_texts}
use aha.Model.Snapshot.Codec.{decode_document}
use aha.Cas.{is_valid_key}
use aha.Model.Snapshot.Validate.{validate_source_data_path}
use aha.Depot.Keys.{machine_prefix}
use aha.Depot.Store.{local_etag}
use aha.Text.Order.{sort_by}
use aha.Model.Identity.{to_lower_ascii}
use aha.Model.Identity.{is_lower_hex}
use aha.Depot.Store.{◌>>=◌}
use aha.Depot.Store.{raise}
use aha.Text.{contains}
use aha.Model.Snapshot.Codec.{decode_snapshot_manifest}
use aha.Model.Identity.Valid
use aha.Model.Identity.{parse_sha256_hex}
use aha.Prelude.Int.{is_negative}
use aha.Text.Path.{clean}
use aha.Text.Path.{is_abs}
use aha.Text.Order.{text_ltb}
use aha.Depot.Codec.{or_error}
use aha.Depot.Codec.{decode_machines_index}
use aha.Depot.Codec.{unmarshal}
use aha.Depot.Store.{attempt}
use aha.Model.Snapshot.Codec.{from_legacy}
use aha.Prelude.{true, false, ◌≡◌, [], ◌∷◌, some, ok, refl}
use aha.Text.{Bytes, codes}
use aha.Model.Snapshot.Codec.{sha256_hex}
use aha.Depot.Keys.{marker_object_key}
use aha.Depot.Store.{Objects, write}
use aha.Depot.Store.Quiet.{quietly}
use aha.Depot.Marker.{Marker, marker_schema_current, marker_bytes}
use aha.Depot.Download.{DownloadPlan, plan_download}
use aha.Depot.Prepare.{Stores, prepare_pull, in_data}
use aha.Depot.Inspect.{ArchiveMetadataReport, inspect_metadata}
use aha.Depot.Inspect.Plan.{inspect_metadata-plan}
use aha.Examples.Documents.{externals}
use aha.Examples.Markers.{markers, ours}
use aha.Examples.Store.{no_objects}
use aha.Examples.Downloads.{machine, sha, archive}

abbrev base : Objects
base = write no_objects marker_object_key (marker_bytes markers ours)

abbrev stores : Stores
stores = record { base = quietly base; current = quietly archive }

abbrev address : Bytes
address = codes "local:/a"

abbrev plan : DownloadPlan
plan = record {
  reader = record {
    is_current = true;
    machines = machine ∷ [];
    binding = record { identity = ours.depot_id; address = address };
  };
  latest = (machine, sha) ∷ [];
}

abbrev report : ArchiveMetadataReport
report = record {
  initialised = true;
  upgrade_required = false;
  binding = some plan.reader.binding;
  machines = 1;
  latest =
      record {
        machine = machine;
        manifest_sha = sha;
        state_sha256 = sha.value;
        captured_at = codes "state";
        files = 1;
      }
      ∷ [];
  problems = [];
  plan = some plan;
}

inspected : inspect_metadata externals markers address stores ≡ (ok report, stores)
unfolding Hex.decode Hex.encode Store.get Valid.sha256_hex after_binding after_latest after_manifest
    after_state archive_binding_from_marker attempt bound check_marker clean contains contains_byte
    contains_text continue_in decode_and_validate_marker_for_read decode_document
    decode_latest_pointer decode_machines_index decode_prepared_snapshot decode_snapshot_manifest
    delete encode_snapshot_manifest fresh_marker from_legacy frozen_plan has_prefix in_data
    inspect_data inspect_found inspect_latest_metadata inspect_layout inspect_marker
    inspect_metadata int_eq int_ltb is_abs is_blank is_corrupt is_current is_current_data is_legacy
    is_lower_hex is_negative is_unreadable is_valid_key latest latest_pointer_key local_etag
    machine_prefix machines manifest manifest_bytes manifest_object_key marker_bytes
    marker_then_data new_archive_binding no_problems normalise note or_error parse_sha256_hex
    prepared_manifest primitive problem_if pure put raise reject_legacy_archive
    safe_catalog_component schema_is_current sha256_hex snapshot_state_sha256 sort_by sort_texts
    space_width split text_eq text_ltb to_legacy to_lower_ascii trim_space unmarshal
    validate_archive_feature_name validate_snapshot_manifest validate_source_data_path vector_of
    write ◌+ℤ◌ ◌>>=◌
inspected = refl

inspect_metadata-plan_example :
    (prepare_pull externals markers address stores ≡ (ok plan.reader, stores))
    × ((m : Bytes) × (parsed : Marker) × (base marker_object_key ≡ some m)
        × (decode_and_validate_marker_for_read markers m ≡ ok parsed)
        × (text_eq parsed.schema marker_schema_current ≡ true))
    × (in_data true (plan_download externals plan.reader) stores ≡ (ok plan, stores))
inspect_metadata-plan_example =
    inspect_metadata-plan externals markers address base archive report plan stores inspected refl
