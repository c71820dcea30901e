-- ===== src/Depot/Download.antt =====
-- What a download reads of an Archive: `PlanDownload`, the delta against a Workspace and
-- `RequireAdapters` of internal/depot/depot_v2.go. A plan is made from a reader only, so the tests for
-- the zero value of a plan are left out; that of the reader's binding stands.
use aha.Prelude.{
  ℕ, suc, Bool, true, false, not, List, [], ◌∷◌, Option, none, some, Result, ok, if◌then◌else◌,
  length,
}
use aha.Prelude.Int.{ℤ, pos, wrap_int64, ◌+ℤ◌}
use aha.Text.{Bytes, text_eq, contains}
use aha.Text.Dict.{Dict, get, put, keys}
use aha.Text.Order.{sort_texts}
use aha.Model.Identity.{parse_sha256_hex}
use aha.Model.Binding.{ArchiveBinding, is_bound}
use aha.Model.Snapshot.Files.{ManifestFile, ManifestAdapt, SnapshotManifest}
use aha.Model.Snapshot.Codec.{ManifestSha256, PreparedSnapshot}
use aha.Depot.Store.{Depot, DepotError, ◌>>=◌, ◌>>◌, pure, raise, lift}
use aha.Depot.Codec.{Externals}
use aha.Depot.Machine.{or_raise, raise_if, latest, prepared_manifest}

-- `is_current` says which store the source's `depot` is bound to: the one under the current prefix, or
-- the base store of a legacy Archive.
pub record PreparedPull : Type 0 where
  pub is_current : Bool
  pub machines : List Bytes
  pub binding : ArchiveBinding

pub record DownloadPlan : Type 0 where
  pub reader : PreparedPull
  pub latest : Dict ManifestSha256

pub record DownloadPlanSummary : Type 0 where
  pub machines : ℕ
  pub latest_snapshots : ℕ
  pub unknown_blobs : ℕ
  pub unknown_bytes : ℤ

-- The question whether the Workspace has a blob; asking may fail.
abbrev pub Known : Type 0
Known = Bytes → Result DepotError Bool

-- The answer of a `nil` callback.
unfoldable pub nothing_known : Known
nothing_known key = ok false

unfoldable pub plan_machines : DownloadPlan → List Bytes
plan_machines p = sort_texts (keys p.latest)

-- `LatestVector`
unfoldable pub identities : Dict ManifestSha256 → Dict Bytes
identities [] = []
identities ((machine, sha) ∷ d) = put (identities d) machine sha.value

same_identity : Option Bytes → Bytes → Bool
same_identity none sha = text_eq [] sha
same_identity (some s) sha = text_eq s sha

-- `materialised[machine] == sha.String()`; a missing key reads as the empty text.
unfoldable pub is_materialised : Dict Bytes → Bytes → ManifestSha256 → Bool
unfolding same_identity
is_materialised materialised machine sha = same_identity (get materialised machine) sha.value

-- Counting the blobs of one manifest; `seen` is the map of the source.
pub record Delta : Type 0 where
  pub seen : List Bytes
  pub unknown_blobs : ℕ
  pub unknown_bytes : ℤ

unfoldable pub no_delta : Delta
no_delta = record { seen = []; unknown_blobs = 0; unknown_bytes = pos 0 }

unfoldable pub add_unknown : Bool → ManifestFile → ℕ → ℤ → ℕ × ℤ
add_unknown true f blobs bytes = (blobs, bytes)
add_unknown false f blobs bytes = (suc blobs, wrap_int64 (bytes +ℤ f.bytes))

unfoldable pub count_new : Known → Delta → ManifestFile → Depot Delta
unfolding add_unknown
count_new known d f = do
  or_raise (parse_sha256_hex f.sha256) DepotError.invalid_blob_key
  present ← lift (known f.sha256)
  let (blobs, bytes) = add_unknown present f d.unknown_blobs d.unknown_bytes
  pure (record { seen = f.sha256 ∷ d.seen; unknown_blobs = blobs; unknown_bytes = bytes })

unfoldable pub count_file : Known → Delta → ManifestFile → Depot Delta
unfolding count_new
count_file known d f = if contains d.seen f.sha256 then pure d else count_new known d f

unfoldable pub count_files : Known → Delta → List ManifestFile → Depot Delta
unfolding count_file
count_files known d [] = pure d
count_files known d (f ∷ fs) = do d' ← count_file known d f; count_files known d' fs

-- One requirement, and those behind it.
unfoldable pub require_adapter : ManifestAdapt → Option Bytes → Depot (Unit {0}) → Depot (Unit {0})
require_adapter a none others = raise (DepotError.unsupported_adapter a.name a.version none)
require_adapter a (some version) others =
    if text_eq version a.version
    then others
    else raise (DepotError.unsupported_adapter a.name a.version (some version))

-- The inner loop of `RequireAdapters`, and `requireManifestAdapters`.
unfoldable pub require_manifest_adapters : Dict Bytes → List ManifestAdapt → Depot (Unit {0})
unfolding require_adapter
require_manifest_adapters supported [] = pure tt
require_manifest_adapters supported (a ∷ rest) =
    require_adapter a (get supported a.name) (require_manifest_adapters supported rest)

unfoldable pub or_no_latest : Option ManifestSha256 → Depot ManifestSha256
or_no_latest none = raise DepotError.no_latest
or_no_latest (some sha) = pure sha

or_outside : Option ManifestSha256 → Depot ManifestSha256
or_outside none = raise DepotError.outside_latest
or_outside (some sha) = pure sha

-- The identity that the source reads out of the map `p.latest`.
unfoldable pub planned : DownloadPlan → Bytes → ManifestSha256
planned p machine = elim (get p.latest machine) [ none ↦ record { value = [] } | some sha ↦ sha ]

unfoldable pub summary_of : DownloadPlan → Delta → DownloadPlanSummary
summary_of p d = record {
  machines = length (plan_machines p);
  latest_snapshots = length p.latest;
  unknown_blobs = d.unknown_blobs;
  unknown_bytes = d.unknown_bytes;
}

module _ (x : Externals) where
  unfoldable pub freeze : Dict ManifestSha256 → List Bytes → Depot (Dict ManifestSha256)
  unfolding or_no_latest
  freeze out [] = pure out
  freeze out (machine ∷ machines) = do
    found ← latest x machine
    sha ← or_no_latest found
    freeze (put out machine sha) machines

  unfoldable pub plan_download : PreparedPull → Depot DownloadPlan
  unfolding freeze
  plan_download p = do
    raise_if (not (is_bound p.binding)) DepotError.invalid_capability
    vector ← freeze [] p.machines
    pure (record { reader = p; latest = vector })

  unfoldable pub selected_prepared_manifest : DownloadPlan → Bytes → Depot PreparedSnapshot
  unfolding or_outside
  selected_prepared_manifest p machine = do
    sha ← or_outside (get p.latest machine)
    prepared_manifest x machine sha

  unfoldable pub selected_manifest : DownloadPlan → Bytes → Depot SnapshotManifest
  selected_manifest p machine = do
    prepared ← selected_prepared_manifest p machine
    pure prepared.manifest

  unfoldable pub delta_loop : DownloadPlan → Dict Bytes → Known → Delta → List Bytes → Depot Delta
  unfolding count_files
  delta_loop p materialised known d [] = pure d
  delta_loop p materialised known d (machine ∷ machines) =
      let skip = delta_loop p materialised known d machines in
      let handle = (do
        manifest ← selected_manifest p machine
        d' ← count_files known d manifest.files
        delta_loop p materialised known d' machines) in
      if is_materialised materialised machine (planned p machine) then skip else handle

  -- The counts of `Summary` are those against a Workspace that has nothing.
  unfoldable pub summary_delta : DownloadPlan → Dict Bytes → Known → Depot DownloadPlanSummary
  unfolding delta_loop summary_of
  summary_delta p materialised known = do
    d ← delta_loop p materialised known no_delta (plan_machines p)
    pure (summary_of p d)

  unfoldable pub summary : DownloadPlan → Known → Depot DownloadPlanSummary
  summary p known = summary_delta p [] known

  unfoldable pub adapters_loop :
      DownloadPlan → Dict Bytes → Dict Bytes → List Bytes → Depot (Unit {0})
  adapters_loop p materialised supported [] = pure tt
  adapters_loop p materialised supported (machine ∷ machines) =
      let skip = adapters_loop p materialised supported machines in
      let handle = (do
        manifest ← selected_manifest p machine
        require_manifest_adapters supported manifest.adapters
        adapters_loop p materialised supported machines) in
      if is_materialised materialised machine (planned p machine) then skip else handle

  unfoldable pub require_adapters : DownloadPlan → Dict Bytes → Dict Bytes → Depot (Unit {0})
  unfolding adapters_loop
  require_adapters p materialised supported =
      adapters_loop p materialised supported (plan_machines p)
