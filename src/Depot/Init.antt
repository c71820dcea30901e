-- ===== src/Depot/Init.antt =====
-- `Init` and `rejectLegacyArchive` of internal/depot/depot_v2.go: an Archive's marker is created where
-- there is none, and checked where there is one. And the two reads of one blob, `OpenBlob` and
-- `HasBlob`.
pub mod Safety
use aha.Prelude.{Bool, [], none, some, Result, ok, err}
use aha.Text.{Bytes, codes}
use aha.Encoding.Json.{Json}
use aha.Cas.{read_verified}
use aha.Depot.Keys.{marker_object_key, blob_object_key}
use aha.Depot.Store.{
  Depot, DepotError, ◌>>=◌, ◌>>◌, pure, raise, attempt, get, get_stream, exists, put_conditional,
}
use aha.Depot.Codec.{Externals}
use aha.Depot.Machine.{or_raise, absent_or}
use aha.Depot.Marker.{Marker, validate_marker_for_write, marker_bytes}

abbrev pub legacy_marker_key : Bytes
legacy_marker_key = codes "depot.json"

module _ (x : Externals) where
  unfoldable pub open_blob : Bytes → Depot Bytes
  open_blob key = do
    stored ← get_stream (blob_object_key key)
    or_raise (read_verified x.sha256 x.zstd key stored) (DepotError.corrupt_object key)

  unfoldable pub has_blob : Bytes → Depot Bool
  has_blob key = exists (blob_object_key key)

module _ (x : Externals) (json : Json Marker) where
  unfoldable pub reject_legacy_archive : Depot (Unit {0})
  reject_legacy_archive = do
    r ← attempt (get x.sha256 legacy_marker_key)
    found ← absent_or r
    elim found [ none ↦ pure tt | some _ ↦ raise DepotError.legacy_archive ]

  accept_marker : Bytes → Depot (Unit {0})
  accept_marker b = or_raise (validate_marker_for_write json b) DepotError.invalid_marker

  -- The marker of a process that was faster.
  accept_winner : Depot (Unit {0})
  unfolding accept_marker
  accept_winner = do (b, _) ← get x.sha256 marker_object_key; accept_marker b

  after_create : Result DepotError (Unit {0}) → Depot (Unit {0})
  unfolding accept_winner
  after_create (ok _) = pure tt
  after_create (err DepotError.precondition_failed) = accept_winner
  after_create (err e) = raise e

  unfoldable pub init : Marker → Depot (Unit {0})
  unfolding after_create accept_marker
  init fresh = do
    reject_legacy_archive
    r ← attempt (get x.sha256 marker_object_key)
    found ← absent_or r
    elim found [
      | some (b, _) ↦ accept_marker b
      | none ↦ do
        written ← attempt (put_conditional x.sha256 marker_object_key (marker_bytes json fresh) [])
        after_create written
    ]
