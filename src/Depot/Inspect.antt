-- ===== src/Depot/Inspect.antt =====
-- `InspectMetadata`, `inspectLatestMetadata` and `validateLatestMetadataForWrite` of
-- internal/depot/depot_v2.go: the bounded look at an Archive, which reads no blob.
pub mod Frozen
mod Layout
pub mod Plan
use aha.Prelude.{
  ℕ, Bool, true, false, ◌&&◌, ◌==◌, List, [], ◌∷◌, ◌++◌, Option, none, some, Result, ok, err,
  if◌then◌else◌, length,
}
use aha.Text.{Bytes}
use aha.Text.Dict.{Dict, put}
use aha.Encoding.Json.{Json}
use aha.Model.Identity.{Sha256Hex}
use aha.Model.Binding.{ArchiveBinding}
use aha.Model.Snapshot.Files.{SnapshotManifest}
use aha.Model.Snapshot.Codec.{ManifestSha256, snapshot_state_sha256}
use aha.Model.Snapshot.Validate.{SnapshotError}
use aha.Depot.Keys.{marker_object_key}
use aha.Depot.Store.{Depot, DepotError, ◌>>=◌, pure, raise, attempt, get}
use aha.Depot.Codec.{Externals}
use aha.Depot.Machine.{absent_or, machines, latest, manifest}
use aha.Depot.Init.{reject_legacy_archive}
use aha.Depot.Marker.{
  Marker, MarkerError, archive_binding_from_marker, decode_and_validate_marker_for_read,
}
use aha.Depot.Download.{DownloadPlan}
use aha.Depot.Verify.{Problem}
use aha.Depot.Prepare.{Stores, marker_then_data, needs_newer, schema_is_current}

pub record ArchiveLatestMetadata : Type 0 where
  pub machine : Bytes
  pub manifest_sha : ManifestSha256
  pub state_sha256 : Bytes
  pub captured_at : Bytes
  pub files : ℕ

pub record ArchiveMetadataReport : Type 0 where
  pub initialised : Bool
  pub upgrade_required : Bool
  pub binding : Option ArchiveBinding
  pub machines : ℕ
  pub latest : List ArchiveLatestMetadata
  pub problems : List Problem
  pub plan : Option DownloadPlan

-- What the loop has gathered.
pub record Gathered : Type 0 where
  pub latest : List ArchiveLatestMetadata
  pub problems : List Problem

unfoldable pub note : Problem → Gathered → Gathered
note p g = record g { problems = g.problems ++ p ∷ [] }

-- Errors that make a problem of the machine: a corrupt object, and for a manifest a missing one.
unfoldable pub is_corrupt : DepotError → Bool
is_corrupt (DepotError.corrupt_object _) = true
is_corrupt _ = false

unfoldable pub is_unreadable : DepotError → Bool
unfolding is_corrupt
is_unreadable DepotError.object_not_exist = true
is_unreadable e = is_corrupt e

abbrev pub is_legacy_error : DepotError → Bool
is_legacy_error DepotError.legacy_archive = true
is_legacy_error _ = false

unfoldable pub problem_if : Bool → Problem → Gathered → DepotError → Depot Gathered
problem_if true p g e = pure (note p g)
problem_if false p g e = raise e

-- The map `latest` that the loop over the report's entries fills.
unfoldable pub vector_of : Dict ManifestSha256 → List ArchiveLatestMetadata → Dict ManifestSha256
vector_of out [] = out
vector_of out (item ∷ rest) = vector_of (put out item.machine item.manifest_sha) rest

unfoldable pub no_problems : List Problem → Bool
no_problems [] = true
no_problems (_ ∷ _) = false

-- What the marker lets the inspection do.
pub data Inspection : Type 0 where
  stopped : ArchiveMetadataReport → Inspection
  readable : ArchiveBinding → Bool → Inspection

unfoldable pub is_current_data : Inspection → Bool
is_current_data (stopped _) = false
is_current_data (readable _ is_current) = is_current

abbrev pub blank_report : ArchiveMetadataReport
blank_report = record {
  initialised = false;
  upgrade_required = false;
  binding = none;
  machines = 0;
  latest = [];
  problems = [];
  plan = none;
}

abbrev pub stopped_for : Bool → Bool → Problem → Inspection
stopped_for initialised upgrade p = stopped (record blank_report {
  initialised = initialised;
  upgrade_required = upgrade;
  problems = p ∷ [];
})

unfoldable pub after_binding : Bool → Result MarkerError ArchiveBinding → Inspection
after_binding is_current (ok binding) = readable binding is_current
after_binding is_current (err e) =
    if needs_newer e
    then stopped_for true true Problem.newer_aha
    else stopped_for true false Problem.invalid_archive_marker

-- `DownloadPlan` is frozen when every machine was read.
unfoldable pub frozen_plan : ArchiveBinding → Bool → List Bytes → Gathered → Option DownloadPlan
unfolding no_problems
frozen_plan binding is_current ms g =
    if no_problems g.problems && length g.latest == length ms
    then some (record {
      reader = record { is_current = is_current; machines = ms; binding = binding };
      latest = vector_of [] g.latest;
    })
    else none

module _ (x : Externals) where
  unfoldable pub after_state :
      Bytes
      → ManifestSha256
      → Gathered
      → SnapshotManifest
      → Result SnapshotError Sha256Hex
      → Gathered
  after_state machine sha g m (err _) = note (Problem.unreadable_state machine) g
  after_state machine sha g m (ok state) = record g {
    latest =
        g.latest
        ++ record {
          machine = machine;
          manifest_sha = sha;
          state_sha256 = state.value;
          captured_at = m.captured_at;
          files = length m.files;
        }
          ∷ [];
  }

  unfoldable pub after_manifest :
      Bytes → ManifestSha256 → Gathered → Result DepotError SnapshotManifest → Depot Gathered
  unfolding is_unreadable problem_if
  after_manifest machine sha g (err e) =
      problem_if (is_unreadable e) (Problem.unreadable_manifest machine) g e
  after_manifest machine sha g (ok m) =
      pure (after_state machine sha g m (snapshot_state_sha256 x.sha256 x.manifest_json m))

  unfoldable pub after_latest :
      Bytes → Gathered → Result DepotError (Option ManifestSha256) → Depot Gathered
  unfolding is_corrupt problem_if
  after_latest machine g (err e) =
      problem_if (is_corrupt e) (Problem.unreadable_pointer machine) g e
  after_latest machine g (ok none) = pure (note (Problem.no_latest_pointer machine) g)
  after_latest machine g (ok (some sha)) = do
    r ← attempt (manifest x machine sha)
    after_manifest machine sha g r

  unfoldable pub inspect_latest_metadata : Gathered → List Bytes → Depot Gathered
  inspect_latest_metadata g [] = pure g
  inspect_latest_metadata g (machine ∷ rest) = do
    r ← attempt (latest x machine)
    g' ← after_latest machine g r
    inspect_latest_metadata g' rest

  unfoldable pub inspect_data : Inspection → Depot ArchiveMetadataReport
  inspect_data (stopped report) = pure report
  inspect_data (readable binding is_current) = do
    ms ← machines x
    g ← inspect_latest_metadata (record { latest = []; problems = [] }) ms
    pure (record {
      initialised = true;
      upgrade_required = false;
      binding = some binding;
      machines = length ms;
      latest = g.latest;
      problems = g.problems;
      plan = frozen_plan binding is_current ms g;
    })

  module _ (json : Json Marker) where
    unfoldable pub inspect_found : Bytes → Option (Bytes × Bytes) → Inspection
    unfolding after_binding schema_is_current
    inspect_found address none = stopped blank_report
    inspect_found address (some (b, _)) =
        after_binding (schema_is_current (decode_and_validate_marker_for_read json b))
          (archive_binding_from_marker json b address)

    unfoldable pub inspect_layout : Bytes → Result DepotError (Unit {0}) → Depot Inspection
    unfolding inspect_found
    inspect_layout address (err e) =
        if is_legacy_error e then pure (stopped_for false false Problem.v1_layout) else raise e
    inspect_layout address (ok _) = do
      r ← attempt (get x.sha256 marker_object_key)
      found ← absent_or r
      pure (inspect_found address found)

    unfoldable pub inspect_marker : Bytes → Depot Inspection
    unfolding inspect_layout
    inspect_marker address = do r ← attempt (reject_legacy_archive x json); inspect_layout address r

    unfoldable pub inspect_metadata :
        Bytes → Stores → Result DepotError ArchiveMetadataReport × Stores
    unfolding inspect_marker inspect_data is_current_data
    inspect_metadata address =
        marker_then_data (inspect_marker address) is_current_data inspect_data
