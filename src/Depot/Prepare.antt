-- ===== src/Depot/Prepare.antt =====
-- The capabilities that internal/depot/depot_v2.go makes of a checked marker and index, `PreparePull`
-- and `PrepareUpload`, and `VerifyWithOptions` over both stores. The marker lies in the base store,
-- where a legacy Archive has its data too; the data of a current Archive lies under the prefix
-- `aha-v3/`. No key is in both parts, so each has a world of its own, and what other processes do to
-- one part before a call on it is that world's next event.
use aha.Prelude.{
  Bool, true, false, not, List, [], ◌∷◌, Option, none, some, Result, ok, err, if◌then◌else◌,
}
use aha.Text.{Bytes, text_eq}
use aha.Encoding.Json.{Json}
use aha.Model.Binding.{ArchiveBinding}
use aha.Model.Lifecycle.{ArchiveState, ArchiveOperation, archive_transition}
use aha.Depot.Keys.{marker_object_key}
use aha.Depot.Store.{World, Depot, DepotError, ◌>>=◌, ◌>>◌, pure, raise, attempt, get}
use aha.Depot.Codec.{Externals}
use aha.Depot.Machine.{or_raise, raise_if, absent_or, machines}
use aha.Depot.Init.{reject_legacy_archive}
use aha.Depot.Marker.{
  Marker, MarkerError, marker_schema_current, archive_binding_from_marker,
  decode_and_validate_marker_for_read, validate_marker_for_write,
}
use aha.Depot.Download.{PreparedPull}
use aha.Depot.Verify.{Problem, VerifyReport, Lister, verify_data}

pub record Stores : Type 0 where
  pub base : World
  pub current : World

-- `withCurrentData` and `withLegacyData`: an operation on the part that has the Archive's data.
unfoldable pub in_data : {A : Type 0} → Bool → Depot A → Stores → Result DepotError A × Stores
in_data true m s = let (r, w) = m s.current in (r, record s { current = w })
in_data false m s = let (r, w) = m s.base in (r, record s { base = w })

-- An operation on the marker, and then one on the data.
unfoldable pub continue_in :
    {A B : Type 0}
    → (A → Bool)
    → (A → Depot B)
    → Result DepotError A
    → Stores
    → Result DepotError B × Stores
continue_in is_current next (err e) s = (err e, s)
continue_in is_current next (ok a) s = in_data (is_current a) (next a) s

unfoldable pub marker_then_data :
    {A B : Type 0} → Depot A → (A → Bool) → (A → Depot B) → Stores → Result DepotError B × Stores
marker_then_data first is_current next s =
    let (r, w) = first s.base in continue_in is_current next r (record s { base = w })

pub record PreparedUpload : Type 0 where
  pub binding : ArchiveBinding
  pub state : ArchiveState
  pub machines : List Bytes

-- The marker of an Archive that may be read, and whether it is of the current schema.
pub record Readable : Type 0 where
  pub binding : ArchiveBinding
  pub is_current : Bool

-- `parsed.Schema == MarkerSchemaCurrent`, for the zero marker of a failed decoding too.
unfoldable pub schema_is_current : Result MarkerError Marker → Bool
schema_is_current (err _) = false
schema_is_current (ok m) = text_eq m.schema marker_schema_current

abbrev pub needs_newer : MarkerError → Bool
needs_newer (MarkerError.unsupported_format _ _ _ _) = true
needs_newer (MarkerError.unsupported_feature _) = true
needs_newer _ = false

unfoldable pub upload_state : List Bytes → ArchiveState
upload_state [] = ArchiveState.empty
upload_state (_ ∷ _) = ArchiveState.populated

-- What the marker means for the audit: where the data is, and the problem that it has.
pub record MarkerAudit : Type 0 where
  pub is_legacy_layout : Bool
  pub is_current : Bool
  pub problems : List Problem

audit_of_error : MarkerError → Depot MarkerAudit
audit_of_error e =
    if needs_newer e
    then raise DepotError.unsupported_format
    else pure (record {
      is_legacy_layout = false;
      is_current = false;
      problems = Problem.invalid_archive_marker ∷ [];
    })

module _ (x : Externals) where
  unfoldable pub pull_of : Readable → Depot PreparedPull
  pull_of m = do
    found ← machines x
    pure (record { is_current = m.is_current; machines = found; binding = m.binding })

  unfoldable pub upload_of : ArchiveBinding → Depot PreparedUpload
  unfolding upload_state
  upload_of binding = do
    found ← machines x
    raise_if (not (archive_transition (upload_state found) ArchiveOperation.upload).is_allowed)
        DepotError.damaged_archive
    pure (record { binding = binding; state = upload_state found; machines = found })

  unfoldable pub audit_data : Bool → Option Lister → MarkerAudit → Depot VerifyReport
  audit_data deep lister m =
      let report : VerifyReport = record {
        deep = deep;
        machines = 0;
        manifests = 0;
        problems = m.problems;
      } in
      if m.is_legacy_layout then pure report else verify_data x deep lister m.problems

module _ (x : Externals) (json : Json Marker) where
  unfoldable pub required_marker : Depot Bytes
  required_marker = do
    r ← attempt (get x.sha256 marker_object_key)
    found ← absent_or r
    elim found [ none ↦ raise DepotError.not_initialised | some (b, _) ↦ pure b ]

  unfoldable pub read_marker : Bytes → Depot Readable
  unfolding required_marker schema_is_current
  read_marker address = do
    reject_legacy_archive x json
    b ← required_marker
    binding ← or_raise (archive_binding_from_marker json b address) DepotError.invalid_marker
    let parsed = decode_and_validate_marker_for_read json b
    pure (record { binding = binding; is_current = schema_is_current parsed })

  unfoldable pub prepare_pull : Bytes → Stores → Result DepotError PreparedPull × Stores
  prepare_pull address = marker_then_data (read_marker address) (λ m. m.is_current) (pull_of x)

  unfoldable pub write_marker : Bytes → Depot ArchiveBinding
  unfolding required_marker
  write_marker address = do
    reject_legacy_archive x json
    b ← required_marker
    binding ← or_raise (archive_binding_from_marker json b address) DepotError.invalid_marker
    or_raise (validate_marker_for_write json b) DepotError.write_upgrade_required
    pure binding

  unfoldable pub prepare_upload : Bytes → Stores → Result DepotError PreparedUpload × Stores
  unfolding upload_of
  prepare_upload address = marker_then_data (write_marker address) (λ _. true) (upload_of x)

  audit_of_found : Option (Bytes × Bytes) → Depot MarkerAudit
  unfolding audit_of_error
  audit_of_found none = pure (record {
    is_legacy_layout = false;
    is_current = false;
    problems = Problem.missing_marker ∷ [];
  })
  audit_of_found (some (b, _)) = elim (decode_and_validate_marker_for_read json b) [
    | err e ↦ audit_of_error e
    | ok m ↦ pure (record {
      is_legacy_layout = false;
      is_current = text_eq m.schema marker_schema_current;
      problems = [];
    })
  ]

  audit_of_layout : Result DepotError (Unit {0}) → Depot MarkerAudit
  unfolding audit_of_found
  audit_of_layout (err DepotError.legacy_archive) =
      pure
        (record { is_legacy_layout = true; is_current = false; problems = Problem.v1_layout ∷ [] })
  audit_of_layout (err e) = raise e
  audit_of_layout (ok _) = do
    r ← attempt (get x.sha256 marker_object_key)
    found ← absent_or r
    audit_of_found found

  unfoldable pub verify_marker : Depot MarkerAudit
  unfolding audit_of_layout
  verify_marker = do r ← attempt (reject_legacy_archive x json); audit_of_layout r

  unfoldable pub verify : Bool → Option Lister → Stores → Result DepotError VerifyReport × Stores
  unfolding audit_data
  verify deep lister = marker_then_data verify_marker (λ m. m.is_current) (audit_data x deep lister)
