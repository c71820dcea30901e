-- ===== src/Depot/Publish.antt =====
-- Publication of internal/depot/depot_v2.go: `publishSnapshot`, `setLatest`, `recommitParent` and
-- `ensureInMachinesIndex`. A conditional write that loses a race is tried again, twelve times in all.
pub mod Keeps
pub mod Quiet
pub mod Bounded
use aha.Prelude.{
  ℕ, zero, suc, Bool, true, false, not, ◌||◌, ◌&&◌, List, [], ◌∷◌, ◌++◌, Option, none, some, Result,
  ok, err, if◌then◌else◌,
}
use aha.Text.{Bytes, text_eq, contains}
use aha.Cas.{is_valid_key}
use aha.Model.Snapshot.Files.{ManifestFile, SnapshotManifest}
use aha.Model.Snapshot.Codec.{ManifestSha256, encode_snapshot_manifest}
use aha.Depot.Keys.{machine_prefix, manifest_object_key, latest_pointer_key, machines_index_key}
use aha.Depot.Store.{
  Depot, DepotError, ◌>>=◌, ◌>>◌, pure, raise, attempt, get, put_if_absent, put_conditional,
  check_context,
}
use aha.Depot.Codec.{
  CodecError, Externals, encode_latest_pointer, decode_latest_pointer, encode_machines_index,
  decode_machines_index,
}
use aha.Depot.Machine.{
  or_raise, raise_if, absent_or, BlobReceipt, LatestExpectation, expect_absent, expect_sha,
  PublishedSnapshot, ParentSnapshot,
}

abbrev pub conditional_retry_attempts : ℕ
conditional_retry_attempts = 12

-- After a lost race with `n` attempts left: give up, or wait and go on.
again : ℕ → Bytes → Depot (Unit {0}) → Depot (Unit {0})
again zero key next = raise (DepotError.contention key)
again (suc n) key next = do check_context; next

-- What a conditional write led to.
after_write : Result DepotError (Unit {0}) → Depot (Unit {0}) → Depot (Unit {0}) → Depot (Unit {0})
after_write (ok _) done retry = done
after_write (err DepotError.precondition_failed) done retry = retry
after_write (err e) done retry = raise e

abbrev pub receipt_keys : List BlobReceipt → List Bytes
receipt_keys [] = []
receipt_keys (r ∷ rs) = r.key ∷ receipt_keys rs

all_valid : List BlobReceipt → Bool
all_valid [] = true
all_valid (r ∷ rs) = is_valid_key r.key && all_valid rs

pub all_covered : List Bytes → List ManifestFile → Bool
all_covered covered [] = true
all_covered covered (f ∷ fs) = contains covered f.sha256 && all_covered covered fs

-- Whether the pointer may be replaced: its identity is the expected one.
is_expected : LatestExpectation → ManifestSha256 → Bool
is_expected expect_absent current = false
is_expected (expect_sha sha) current = text_eq current.value sha.value

pub data Pointer : Type 0 where
  up_to_date stale : Pointer
  replace : Bytes → Pointer

-- The `switch` of `setLatest` on what the pointer holds. A pointer that does not decode is replaced
-- under the ETag that was read.
judge_present : PublishedSnapshot → Bytes → Result CodecError ManifestSha256 → Pointer
judge_present p etag (err _) = replace etag
judge_present p etag (ok current) =
    if text_eq current.value p.sha.value
    then up_to_date
    else if is_expected p.expected current
    then replace etag
    else stale

judge_absent : LatestExpectation → Pointer
judge_absent expect_absent = replace []
judge_absent (expect_sha _) = stale

unfoldable pub is_valid_expectation : LatestExpectation → Bool
is_valid_expectation expect_absent = true
is_valid_expectation (expect_sha sha) = is_valid_key sha.value

module _ (x : Externals) where
  judge : PublishedSnapshot → Option (Bytes × Bytes) → Pointer
  unfolding judge_absent judge_present is_expected
  judge p none = judge_absent p.expected
  judge p (some (b, etag)) = judge_present p etag (decode_latest_pointer x b)

  read_index : Option (Bytes × Bytes) → Depot (List Bytes × Bytes)
  read_index none = pure ([], [])
  read_index (some (b, etag)) = do
    machines ← or_raise (decode_machines_index x b) DepotError.corrupt_index
    pure (machines, etag)

  register : ℕ → Bytes → Depot (Unit {0})
  unfolding read_index again after_write
  register zero machine = raise (DepotError.contention machines_index_key)
  register (suc n) machine = do
    check_context
    r ← attempt (get x.sha256 machines_index_key)
    found ← absent_or r
    (machines, etag) ← read_index found
    if contains machines machine then pure tt else (do
      updated ←
          or_raise (encode_machines_index x (machines ++ machine ∷ [])) DepotError.empty_machine_id
      written ← attempt (put_conditional x.sha256 machines_index_key updated etag)
      after_write written (pure tt) (again n machines_index_key (register n machine)))

  unfoldable pub ensure_in_machines_index : Bytes → Depot (Unit {0})
  unfolding register
  ensure_in_machines_index machine = register conditional_retry_attempts machine

  point : ℕ → PublishedSnapshot → Bytes → Depot (Unit {0})
  unfolding judge again after_write
  point zero p pointer = raise (DepotError.contention (latest_pointer_key x.sha256 p.machine))
  point (suc n) p pointer = do
    check_context
    let key = latest_pointer_key x.sha256 p.machine
    r ← attempt (get x.sha256 key)
    found ← absent_or r
    elim (judge p found) [
      | up_to_date ↦ ensure_in_machines_index p.machine
      | stale ↦ raise (DepotError.stale_publication p.machine)
      | replace etag ↦ do
        written ← attempt (put_conditional x.sha256 key pointer etag)
        after_write written (ensure_in_machines_index p.machine) (again n key (point n p pointer))
    ]

  unfoldable pub set_latest : Bytes → PublishedSnapshot → Depot (Unit {0})
  unfolding point is_valid_expectation
  set_latest machine p = do
    raise_if
        (not (text_eq p.machine machine)
          || not (is_valid_key p.sha.value)
          || not (is_valid_expectation p.expected))
        DepotError.not_expected_parent
    pointer ← or_raise (encode_latest_pointer x p.sha) DepotError.invalid_manifest_sha
    point conditional_retry_attempts p pointer

  -- Whether a parent was published in the namespace of the machine.
  is_own_parent : Bytes → ParentSnapshot → Bool
  is_own_parent machine p =
      text_eq (machine_prefix x.sha256 p.manifest.machine_id) (machine_prefix x.sha256 machine)
      && is_valid_key p.sha.value

  unfoldable pub recommit_parent : Bytes → ParentSnapshot → Depot (Unit {0})
  unfolding is_own_parent
  recommit_parent machine p = do
    raise_if (not (is_own_parent machine p)) DepotError.foreign_parent
    set_latest machine (record { machine = machine; sha = p.sha; expected = expect_sha p.sha })

  expectation : Bytes → Option ParentSnapshot → Depot LatestExpectation
  unfolding is_own_parent
  expectation machine none = pure expect_absent
  expectation machine (some p) = do
    raise_if (not (is_own_parent machine p)) DepotError.foreign_parent
    pure (expect_sha p.sha)

  unfoldable pub publish_snapshot :
      Bytes → SnapshotManifest → List BlobReceipt → Option ParentSnapshot → Depot PublishedSnapshot
  unfolding expectation all_valid all_covered
  publish_snapshot machine m receipts parent = do
    raise_if (not (text_eq m.machine_id machine)) DepotError.foreign_manifest
    raise_if (not (all_valid receipts)) DepotError.invalid_receipt
    (b, sha) ←
        or_raise (encode_snapshot_manifest x.sha256 x.manifest_json m) DepotError.invalid_snapshot
    raise_if (not (all_covered (receipt_keys receipts) m.files)) DepotError.missing_receipt
    put_if_absent (manifest_object_key x.sha256 machine sha.value) b
    expected ← expectation machine parent
    pure (record { machine = machine; sha = sha; expected = expected })
