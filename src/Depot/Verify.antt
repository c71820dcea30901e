-- ===== src/Depot/Verify.antt =====
-- `VerifyWithOptions` of internal/depot/depot_v2.go: the audit of index, pointers, manifests and blobs.
-- Progress reports and the count of downloaded bytes are left out, and so is the report beside an
-- error.
mod Verdict
pub mod Stored
mod Sound
pub mod Complete
use aha.Prelude.{
  ℕ, suc, Bool, true, false, List, [], ◌∷◌, ◌++◌, Option, none, some, Result, ok, err,
  if◌then◌else◌, length, drop,
}
use aha.Text.{Bytes, codes, contains, trim_suffix}
use aha.Model.Identity.{IdentityError, Sha256Hex, parse_sha256_hex}
use aha.Model.Snapshot.Files.{ManifestFile, SnapshotManifest}
use aha.Model.Snapshot.Codec.{ManifestSha256}
use aha.Depot.Keys.{machine_prefix, manifest_object_key}
use aha.Depot.Store.{Depot, DepotError, ◌>>=◌, ◌>>◌, pure, raise, attempt, check_context}
use aha.Depot.Codec.{Externals}
use aha.Depot.Machine.{machines, latest, manifest}
use aha.Depot.Init.{open_blob, has_blob}

-- The texts of the source, by what they say of which machine.
pub data Problem : Type 0 where
  v1_layout invalid_archive_marker missing_marker newer_aha : Problem
  unreadable_pointer no_latest_pointer unreadable_manifest : Bytes → Problem
  unreadable_state invalid_blob unreadable_blob missing_blob unexpected_manifest : Bytes → Problem

pub record VerifyReport : Type 0 where
  pub deep : Bool
  pub machines : ℕ
  pub manifests : ℕ
  pub problems : List Problem

-- The variables of the audit: `seenManifests` and `checkedBlobs` are what the maps hold.
pub record Audit : Type 0 where
  pub manifests : ℕ
  pub problems : List Problem
  pub checked_blobs : List Bytes
  pub seen_manifests : List Bytes

unfoldable pub report_problem : Problem → Audit → Audit
report_problem p a = record a { problems = a.problems ++ p ∷ [] }

-- `objectLister`, where the store has it: the keys under a prefix. The local store walks a directory.
abbrev pub Lister : Type 0
Lister = Bytes → Depot (List Bytes)

-- An error is the context's where the context is cancelled, and else is a problem.
unfoldable pub problem_unless_cancelled : Problem → Audit → Depot Audit
problem_unless_cancelled p a = do check_context; pure (report_problem p a)

module _ (x : Externals) where
  unfoldable pub after_open : Bytes → Audit → Result DepotError Bytes → Depot Audit
  after_open machine a (ok _) = pure a
  after_open machine a (err _) = problem_unless_cancelled (Problem.unreadable_blob machine) a

  unfoldable pub after_exists : Bytes → Audit → Result DepotError Bool → Depot Audit
  after_exists machine a (ok true) = pure a
  after_exists machine a (ok false) = pure (report_problem (Problem.missing_blob machine) a)
  after_exists machine a (err e) = do check_context; raise e

  -- Whether one blob is there, and in deep mode whether its bytes are its content.
  unfoldable pub probe_blob : Bool → Bytes → Bytes → Audit → Depot Audit
  unfolding after_open after_exists
  probe_blob true machine key a = do r ← attempt (open_blob x key); after_open machine a r
  probe_blob false machine key a = do r ← attempt (has_blob x key); after_exists machine a r

  unfoldable pub after_key :
      Bool → Bytes → Bytes → Audit → Result IdentityError Sha256Hex → Depot Audit
  after_key deep machine key a (err _) = pure (report_problem (Problem.invalid_blob machine) a)
  after_key deep machine key a (ok _) =
      if contains a.checked_blobs key
      then pure a
      else probe_blob deep machine key (record a { checked_blobs = key ∷ a.checked_blobs })

  unfoldable pub check_file : Bool → Bytes → Audit → ManifestFile → Depot Audit
  unfolding after_key
  check_file deep machine a f = after_key deep machine f.sha256 a (parse_sha256_hex f.sha256)

  unfoldable pub check_files : Bool → Bytes → Audit → List ManifestFile → Depot Audit
  check_files deep machine a [] = pure a
  check_files deep machine a (f ∷ fs) = do
    a' ← check_file deep machine a f
    check_files deep machine a' fs

  unfoldable pub after_manifest :
      Bool → Bytes → Audit → Result DepotError SnapshotManifest → Depot Audit
  after_manifest deep machine a (err _) =
      problem_unless_cancelled (Problem.unreadable_manifest machine) a
  after_manifest deep machine a (ok m) =
      check_files deep machine (record a { manifests = suc a.manifests }) m.files

  -- The closure `checkManifest`.
  unfoldable pub check_manifest : Bool → Bytes → ManifestSha256 → Audit → Depot Audit
  unfolding after_manifest
  check_manifest deep machine sha a = do
    r ← attempt (manifest x machine sha)
    after_manifest deep machine a r

  after_name : Bytes → Audit → Result IdentityError Sha256Hex → Depot Audit
  after_name machine a (err _) = pure (report_problem (Problem.unexpected_manifest machine) a)
  after_name machine a (ok sha) = check_manifest true machine (record { value = sha.value }) a

  abbrev pub manifests_prefix : Bytes → Bytes
  manifests_prefix machine = machine_prefix x.sha256 machine ++ codes "manifests/"

  -- The identity that a listed key names.
  unfoldable pub named_identity : Bytes → Bytes → Bytes
  named_identity machine key =
      trim_suffix (drop (length (manifests_prefix machine)) key) (codes ".json")

  unfoldable pub check_listed : Bytes → Audit → List Bytes → Depot Audit
  unfolding after_name
  check_listed machine a [] = pure a
  check_listed machine a (key ∷ keys) =
      let skip = check_listed machine a keys in
      let handle = (do
        a' ←
            after_name machine (record a { seen_manifests = key ∷ a.seen_manifests })
              (parse_sha256_hex (named_identity machine key))
        check_listed machine a' keys) in
      if contains a.seen_manifests key then skip else handle

  unfoldable pub check_history : Bool → Option Lister → Bytes → Audit → Depot Audit
  check_history false lister machine a = pure a
  check_history true none machine a = pure a
  check_history true (some list_keys) machine a = do
    keys ← list_keys (manifests_prefix machine)
    check_listed machine a keys

  unfoldable pub after_latest :
      Bool → Option Lister → Bytes → Audit → Result DepotError (Option ManifestSha256) → Depot Audit
  unfolding check_history
  after_latest deep lister machine a (err _) =
      problem_unless_cancelled (Problem.unreadable_pointer machine) a
  after_latest deep lister machine a (ok none) =
      pure (report_problem (Problem.no_latest_pointer machine) a)
  after_latest deep lister machine a (ok (some sha)) = do
    a' ← check_manifest deep machine sha (record a {
      seen_manifests = manifest_object_key x.sha256 machine sha.value ∷ a.seen_manifests;
    })
    check_history deep lister machine a'

  unfoldable pub check_machine : Bool → Option Lister → Audit → Bytes → Depot Audit
  unfolding after_latest
  check_machine deep lister a machine = do
    r ← attempt (latest x machine)
    after_latest deep lister machine a r

  unfoldable pub check_machines : Bool → Option Lister → Audit → List Bytes → Depot Audit
  check_machines deep lister a [] = pure a
  check_machines deep lister a (machine ∷ rest) = do
    a' ← check_machine deep lister a machine
    check_machines deep lister a' rest

  -- The part behind the marker, with the problem that the marker gave.
  unfoldable pub verify_data : Bool → Option Lister → List Problem → Depot VerifyReport
  verify_data deep lister problems = do
    found ← machines x
    a ←
        check_machines deep lister
          (record { manifests = 0; problems = problems; checked_blobs = []; seen_manifests = [] })
          found
    check_context
    pure (record {
      deep = deep;
      machines = length found;
      manifests = a.manifests;
      problems = a.problems;
    })
