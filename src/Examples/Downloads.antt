-- ===== src/Examples/Downloads.antt =====
-- Plans, inspections and audits of an Archive with one snapshot.
use aha.Depot.Store.{put_if_absent}
use aha.Depot.Store.{put_conditional}
use aha.Depot.Push.{reuse}
use aha.Depot.Publish.{is_valid_expectation}
use aha.Depot.Machine.{carried_blob}
use aha.Depot.Push.{no_parent}
use aha.Depot.Machine.{manifest}
use aha.Depot.Push.{count}
use aha.Depot.Push.{upload_and_publish}
use aha.Depot.Push.{against_parent}
use aha.Depot.Push.{from_source}
use aha.Depot.Machine.{parent}
use aha.Depot.Push.{upload}
use aha.Depot.Push.{obtain}
use aha.Depot.Machine.{latest}
use aha.Model.Snapshot.Codec.{snapshot_state_sha256}
use aha.Depot.Machine.{receipt_kind}
use aha.Depot.Push.{is_unchanged}
use aha.Cas.{hash_of}
use aha.Depot.Publish.{publish_snapshot}
use aha.Cas.{put_file}
use aha.Depot.Machine.{ensure_blob}
use aha.Depot.Codec.{encode_latest_pointer}
use aha.Depot.Codec.{decode_latest_pointer}
use aha.Depot.Publish.{set_latest}
use aha.Depot.Publish.{ensure_in_machines_index}
use aha.Depot.Keys.{blob_object_key}
use aha.Depot.Publish.{recommit_parent}
use aha.Depot.Codec.{encode_machines_index}
use aha.Model.Identity.{new_machine_id}
use aha.Depot.Upload.{is_capable}
use aha.Depot.Push.{push}
use aha.Model.Binding.{is_bound}
use aha.Model.Snapshot.Codec.{from_legacy}
use aha.Depot.Store.{check_context, attempt}
use aha.Depot.Codec.{unmarshal}
use aha.Depot.Codec.{decode_machines_index}
use aha.Depot.Codec.{or_error}
use aha.Text.Order.{text_ltb}
use aha.Text.Path.{is_abs}
use aha.Text.Path.{clean}
use aha.Prelude.Int.{is_negative}
use aha.Depot.Download.{require_adapter}
use aha.Model.Identity.{parse_sha256_hex}
use aha.Depot.Materialisation.{prepare_machine}
use aha.Model.Identity.Valid
use aha.Model.Snapshot.Codec.{decode_snapshot_manifest}
use aha.Text.{contains}
use aha.Depot.Store.{check_context, raise}
use aha.Depot.Store.{check_context, ◌>>=◌}
use aha.Model.Identity.{is_lower_hex}
use aha.Depot.Materialisation.{take_manifest}
use aha.Model.Identity.{to_lower_ascii}
use aha.Text.Order.{sort_by}
use aha.Depot.Store.{check_context, local_etag}
use aha.Depot.Keys.{machine_prefix}
use aha.Model.Snapshot.Validate.{validate_source_data_path}
use aha.Cas.{is_valid_key}
use aha.Model.Snapshot.Codec.{decode_document}
use aha.Text.Order.{sort_texts}
use aha.Depot.Materialisation.{prepare_loop}
use aha.Depot.Download.{selected_prepared_manifest}
use aha.Prelude.Int.{wrap_int64}
use aha.Text.Space.{trim_space}
use aha.Model.Snapshot.Codec.{normalise}
use aha.Text.Dict.{get}
use aha.Model.Snapshot.Validate.{validate_snapshot_manifest}
use aha.Depot.Machine.{prepared_manifest}
use aha.Depot.Store
use aha.Text.{text_eq}
use aha.Text.Space.{space_width}
use aha.Depot.Materialisation.{insert_or_ignore}
use aha.Depot.Store.{check_context, lift}
use aha.Depot.Store.{check_context, pure}
use aha.Depot.Download.{plan_machines}
use aha.Text.{split}
use aha.Depot.Download.{is_materialised}
use aha.Text.{contains_byte}
use aha.Prelude.Int.{◌+ℤ◌}
use aha.Depot.Download.{add_unknown}
use aha.Depot.Keys.{safe_catalog_component}
use aha.Depot.Store.{check_context, primitive}
use aha.Depot.Materialisation.{spool}
use aha.Encoding.Hex
use aha.Text.Space.{is_blank}
use aha.Depot.Download.{planned}
use aha.Text.{contains_text}
use aha.Depot.Download.{require_manifest_adapters}
use aha.Model.Snapshot.Codec.{encode_snapshot_manifest}
use aha.Model.Snapshot.Codec.{decode_prepared_snapshot}
use aha.Model.Snapshot.Codec.{to_legacy}
use aha.Text.{has_prefix}
use aha.Prelude.{some, inr, true, All, false, ◌≡◌, ◌++◌, List, [], ◌∷◌, ok, refl}
use aha.Prelude.Int.{pos}
use aha.Text.{Bytes, codes}
use aha.Text.Dict.{Dict}
use aha.Encoding.Json.{newline}
use aha.Model.Binding.{ArchiveBinding}
use aha.Model.Snapshot.Codec.{ManifestSha256, manifest_bytes, sha256_hex}
use aha.Depot.Keys.{machines_index_key, latest_pointer_key, manifest_object_key}
use aha.Depot.Store.{check_context, Objects, World, write}
use aha.Depot.Store.Quiet.{quietly}
use aha.Depot.Store.Reads.{value}
use aha.Depot.Codec.{machines_index_schema, latest_pointer_schema}
use aha.Depot.Machine.{machines}
use aha.Depot.Download.{DownloadPlan, nothing_known, summary_delta, require_adapters}
use aha.Depot.Materialisation.{MaterialisationPlan, prepare_materialisation}
use aha.Depot.Materialisation.Agrees.{prepare_materialisation-summary_delta}
use aha.Depot.Download.{plan_machines}
use aha.Depot.Materialisation.Selects.{
  machines_of, changed, IsSelected, prepare_materialisation-selects,
}
use aha.Depot.Verify.{Problem, VerifyReport, verify_data}
use aha.Depot.Verify.Stored.{IndexStored}
use aha.Depot.Verify.Complete.{MachineStored, HistoryStored, verify_data_sound}
use aha.Model.Lifecycle.{ArchiveState}
use aha.Depot.Prepare.{PreparedUpload}
use aha.Depot.Push.{PushResult}
use aha.Depot.Upload.{execute, plan_upload}
use aha.Depot.Upload.Agrees.{execute-plan_upload}
use aha.Examples.Push.{session_source}
use aha.Examples.Digest.{weak_digest}
use aha.Examples.Documents.{externals, one_session}
use aha.Examples.Store.{no_objects}

abbrev pub machine : Bytes
machine = codes "Work Mac"

abbrev pub document : Bytes
document = manifest_bytes weak_digest externals.manifest_json one_session

abbrev pub sha : ManifestSha256
sha = record { value = sha256_hex weak_digest externals.manifest_json document }

abbrev pub archive : Objects
archive =
    write
      (write
        (write no_objects machines_index_key (
          externals.index_json.marshal
            (record { schema = machines_index_schema; machines = machine ∷ [] })
          ++ newline))
        (latest_pointer_key weak_digest machine)
        (externals.pointer_json.marshal
            (record { schema = latest_pointer_schema; manifest_sha256 = sha.value })
          ++ newline))
      (manifest_object_key weak_digest machine sha.value) document

abbrev binding : ArchiveBinding
binding = record { identity = codes "depot-1"; address = codes "local:/a" }

abbrev plan : DownloadPlan
plan = record {
  reader = record { is_current = true; machines = machine ∷ []; binding = binding };
  latest = (machine, sha) ∷ [];
}

abbrev supported : Dict Bytes
supported = (codes "pi", codes "1") ∷ []

abbrev spooled_plan : MaterialisationPlan
spooled_plan = record {
  reader = plan.reader;
  latest = plan.latest;
  spooled = record { machine = machine; sha = sha; content = document } ∷ [];
  summary = record {
    machines = 1;
    latest_snapshots = 1;
    unknown_blobs = 1;
    unknown_bytes = pos 17;
  };
}

prepared :
    prepare_materialisation externals plan [] supported nothing_known (quietly archive)
    ≡ (ok spooled_plan, quietly archive)
unfolding Hex.decode Hex.encode Store.get Valid.sha256_hex add_unknown clean contains contains_byte
    contains_text decode_document decode_prepared_snapshot decode_snapshot_manifest
    encode_snapshot_manifest from_legacy get has_prefix insert_or_ignore is_abs is_blank
    is_lower_hex is_materialised is_negative is_valid_key lift local_etag machine_prefix
    manifest_bytes manifest_object_key normalise nothing_known parse_sha256_hex plan_machines
    planned prepare_loop prepare_machine prepare_materialisation prepared_manifest primitive pure
    raise require_adapter require_manifest_adapters safe_catalog_component
    selected_prepared_manifest sha256_hex sort_by sort_texts space_width split spool take_manifest
    text_eq text_ltb to_legacy to_lower_ascii trim_space validate_snapshot_manifest
    validate_source_data_path wrap_int64 write ◌+ℤ◌ ◌>>=◌
prepared = refl

found : value (machines externals) archive ≡ ok (machine ∷ [])
unfolding Hex.encode Store.get attempt contains decode_machines_index is_blank latest_pointer_key
    local_etag machine_prefix machines manifest_object_key or_error primitive pure raise
    safe_catalog_component sort_by sort_texts space_width text_eq text_ltb trim_space unmarshal
    write ◌>>=◌
found = refl

prepare_materialisation-summary_delta_example :
    (summary_delta externals plan [] nothing_known (quietly archive)
      ≡ (ok spooled_plan.summary, quietly archive))
    × (require_adapters externals plan [] supported (quietly archive) ≡ (ok tt, quietly archive))
prepare_materialisation-summary_delta_example =
    prepare_materialisation-summary_delta externals plan [] supported nothing_known
      (quietly archive) (quietly archive) spooled_plan prepared

prepare_materialisation-selects_example :
    (machines_of spooled_plan.spooled ≡ changed plan [] (plan_machines plan))
    × All (IsSelected externals plan) spooled_plan.spooled
prepare_materialisation-selects_example =
    prepare_materialisation-selects externals plan [] supported nothing_known (quietly archive)
      (quietly archive) spooled_plan prepared

index_stored : IndexStored externals archive (machine ∷ [])
unfolding write text_eq decode_machines_index unmarshal or_error sort_texts sort_by text_ltb
    contains manifest_object_key machine_prefix safe_catalog_component trim_space latest_pointer_key
    is_blank
index_stored = inr (_, refl, refl)

-- The store lists the one manifest.
abbrev listing : Bytes → List Bytes
listing m = manifest_object_key weak_digest machine sha.value ∷ []

verify_data_sound_example :
    (report : VerifyReport) × (verify_data externals true
        (some (λ prefix. pure (listing prefix)))
        []
        (quietly archive)
      ≡ (ok report, quietly archive))
    × (report.machines ≡ 1)
    × (report.problems ≡ []
        → (◌≡◌ {A = List Problem} [] [])
          × All (MachineStored externals true archive) (machine ∷ []))
    × (◌≡◌ {A = List Problem} [] []
        → All
            (λ (m : Bytes).
              MachineStored externals true archive m
              × HistoryStored externals true archive true (listing m) m)
            (machine ∷ [])
        → report.problems ≡ [])
unfolding pure
verify_data_sound_example =
    verify_data_sound externals true archive (λ prefix. pure (listing prefix)) listing (λ h m. refl)
      [] (machine ∷ []) index_stored

abbrev capability : PreparedUpload
capability = record { binding = binding; state = ArchiveState.empty; machines = [] }

abbrev result : PushResult
result = record {
  manifest_sha = sha;
  reused = false;
  files = 1;
  blobs_uploaded = 1;
  blobs_existing = 0;
  blobs_carried = 0;
}

executed :
    execute externals capability one_session session_source (quietly no_objects)
    ≡ (ok result, (execute externals capability one_session session_source (quietly no_objects)).1)
unfolding Hex.decode Hex.encode Store.get Valid.sha256_hex against_parent attempt blob_object_key
    carried_blob check_context clean contains contains_byte contains_text count decode_document
    decode_latest_pointer decode_prepared_snapshot decode_snapshot_manifest encode_latest_pointer
    encode_machines_index encode_snapshot_manifest ensure_blob ensure_in_machines_index execute
    from_legacy from_source has_prefix hash_of is_abs is_blank is_bound is_capable is_lower_hex
    is_negative is_unchanged is_valid_expectation is_valid_key latest latest_pointer_key lift
    local_etag machine_prefix manifest manifest_bytes manifest_object_key new_machine_id no_parent
    normalise obtain parent parse_sha256_hex prepared_manifest primitive publish_snapshot pure push
    put_conditional put_file put_if_absent raise receipt_kind recommit_parent reuse
    safe_catalog_component set_latest sha256_hex snapshot_state_sha256 sort_by sort_texts
    space_width split text_eq text_ltb to_legacy to_lower_ascii trim_space upload upload_and_publish
    validate_snapshot_manifest validate_source_data_path wrap_int64 write ◌+ℤ◌ ◌>>=◌
executed = refl

execute-plan_upload_example : plan_upload externals capability one_session (quietly no_objects) ≡ (
  ok (record { files = 1; blobs_upload = 1; blobs_existing = 0; blobs_carried = 0 }),
  quietly no_objects,
)
execute-plan_upload_example =
    execute-plan_upload externals session_source one_session capability no_objects result _ executed
      refl
