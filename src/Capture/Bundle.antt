-- ===== src/Capture/Bundle.antt =====
-- The reading of a bundle, in internal/archive/archive.go. package tar and zstd are a parameter: the
-- entries of a file, and whether they end where the file does. The failures of the disk are part of
-- what that parameter says of a path.
pub mod Intact
pub mod Visits
use aha.Prelude.{
  ℕ, Bool, true, false, not, ◌&&◌, ◌||◌, ◌*◌, ◌^◌, List, [], ◌∷◌, ◌++◌, Option, none, some, Result,
  ok, err, ◌>>=◌, ◌>>◌, fail_if, if◌then◌else◌, length, ltb,
}
use aha.Prelude.Int.{ℤ, pos, is_negative, int_eq, int_ltb, ◌+ℤ◌, ◌-ℤ◌}
use aha.Text.{Bytes, codes, text_eq, has_prefix, contains}
use aha.Text.Space.{is_blank}
use aha.Text.Dict.{Dict, get, put, delete, has}
use aha.Encoding.Hex
use aha.Encoding.Json.{Json}
use aha.Model.Snapshot.Files.{ManifestSource, ManifestPolicy, ManifestAdapt, ManifestFile}
use aha.Model.Snapshot.Validate.{validate_source_data_path}

pub record Implementation : Type 0 where
  pub language : Bytes
  pub archive : Bytes

pub record ManifestCounts : Type 0 where
  pub session_files : ℤ
  pub artifact_files : ℤ
  pub image_files : ℤ
  pub bytes_uncompressed : ℤ  -- int64

pub record Manifest : Type 0 where
  pub schema : Bytes
  pub bundle_id : Bytes
  pub machine_id : Bytes
  pub machine_label : Bytes
  pub captured_at : Bytes
  pub created_by : Bytes
  pub implementation : Implementation
  pub source : ManifestSource
  pub policy : ManifestPolicy
  pub counts : ManifestCounts
  pub adapters : List ManifestAdapt
  pub files : List ManifestFile

abbrev pub bundle_schema : Bytes
bundle_schema = codes "agent-session-snapshot-bundle/v2"

abbrev pub max_manifest_bytes : ℤ
max_manifest_bytes = pos (16 * 2 ^ 20)

abbrev pub max_archive_entry_bytes : ℤ
max_archive_entry_bytes = pos (4 * 2 ^ 30)

abbrev pub max_bundle_uncompressed_bytes : ℤ
max_bundle_uncompressed_bytes = pos (8 * 2 ^ 30)

abbrev pub max_checksum_bytes : ℤ
max_checksum_bytes = pos (2 ^ 20)

abbrev pub max_manifest_files : ℕ
max_manifest_files = 200000

abbrev pub manifest_name : Bytes
manifest_name = codes "manifest.json"

abbrev pub checksums_name : Bytes
checksums_name = codes "checksums/sha256sums.txt"

pub data BundleError : Type 0 where
  unsupported_schema bundle_id_required machine_id_required captured_at_required : BundleError
  unsafe_path file_source_required misplaced_session misplaced_artifact unsupported_kind :
      BundleError
  too_many_files negative_size file_too_large bundle_too_large : BundleError
  no_entries manifest_not_first not_regular manifest_too_large malformed_manifest : BundleError
  duplicate_file unsupported_entry entry_too_large duplicate_entry checksums_too_large : BundleError
  not_in_manifest size_mismatch sha_mismatch corrupt_stream missing_file : BundleError
  callback_failed : BundleError

abbrev pub Check : Type 0
Check = Result BundleError (Unit {0})

validate_archive_data_path : Bytes → Check
validate_archive_data_path name = elim (validate_source_data_path name) [
  | err _ ↦ err unsafe_path
  | ok _ ↦ ok tt
]

under : Bytes → ManifestFile → Bytes
under kind f = codes "sources/" ++ (f.source ++ (codes "/" ++ (kind ++ codes "/")))

check_place : ManifestFile → Check
unfolding under
check_place f =
    if text_eq f.kind (codes "session")
    then fail_if (not (has_prefix f.relative_path (under (codes "sessions") f))) misplaced_session
    else if text_eq f.kind (codes "artifact")
    then fail_if (not (has_prefix f.relative_path (under (codes "artifacts") f))) misplaced_artifact
    else err unsupported_kind

check_files : List ManifestFile → Check
unfolding validate_archive_data_path check_place
check_files [] = ok tt
check_files (f ∷ fs) = do
  validate_archive_data_path f.relative_path
  fail_if (is_blank f.source) file_source_required
  check_place f
  check_files fs

unfoldable pub validate_manifest_semantics : Manifest → Check
unfolding check_files
validate_manifest_semantics m = do
  fail_if (not (text_eq m.schema bundle_schema)) unsupported_schema
  fail_if (is_blank m.bundle_id) bundle_id_required
  fail_if (is_blank m.machine_id) machine_id_required
  fail_if (is_blank m.captured_at) captured_at_required
  check_files m.files

-- The loop over the sizes; the first argument is `total`.
unfoldable pub check_sizes : ℤ → List ManifestFile → Check
check_sizes total [] = ok tt
check_sizes total (f ∷ fs) = do
  fail_if (is_negative f.bytes) negative_size
  fail_if (int_ltb max_archive_entry_bytes f.bytes) file_too_large
  fail_if (int_ltb (max_bundle_uncompressed_bytes -ℤ f.bytes) total) bundle_too_large
  check_sizes (total +ℤ f.bytes) fs

unfoldable pub validate_manifest_budgets : Manifest → Check
validate_manifest_budgets m = do
  fail_if (ltb max_manifest_files (length m.files)) too_many_files
  check_sizes (pos 0) m.files

-- One entry of a tar file: its header as far as it is read, and its bytes.
pub record TarEntry : Type 0 where
  pub name : Bytes
  pub is_regular : Bool
  pub size : ℤ
  pub content : Bytes

-- What reading a path gives: the entries up to the first error or the end, and which of them it was.
pub record TarFile : Type 0 where
  pub entries : List TarEntry
  pub is_whole : Bool

-- `readManifestOnly`
module _ (json : Json Manifest) where
  decode_manifest : Bytes → Result BundleError Manifest
  decode_manifest b = elim (json.decode b) [
    | none ↦ err malformed_manifest
    | some (m, more) ↦ if more then err malformed_manifest else ok m
  ]

  first_entry : List TarEntry → Result BundleError TarEntry
  first_entry [] = err no_entries
  first_entry (e ∷ _) = ok e

  unfoldable pub read_manifest_only : TarFile → Result BundleError Manifest
  unfolding decode_manifest first_entry
  read_manifest_only file = do
    h ← first_entry file.entries
    fail_if (not (text_eq h.name manifest_name)) manifest_not_first
    fail_if (not h.is_regular) not_regular
    fail_if (int_ltb max_manifest_bytes h.size) manifest_too_large
    fail_if (int_ltb max_manifest_bytes (pos (length h.content))) manifest_too_large
    m ← decode_manifest h.content
    fail_if (not (text_eq m.schema bundle_schema)) unsupported_schema
    ok m

  -- `ReadManifest`
  unfoldable pub read_manifest : TarFile → Result BundleError Manifest
  read_manifest file = do
    m ← read_manifest_only file
    validate_manifest_semantics m
    validate_manifest_budgets m
    ok m

-- The files of the manifest by their paths; a path twice is an error.
unfoldable pub index_files :
    Dict ManifestFile → List ManifestFile → Result BundleError (Dict ManifestFile)
unfolding validate_archive_data_path
index_files d [] = ok d
index_files d (f ∷ fs) = do
  validate_archive_data_path f.relative_path
  fail_if (has d f.relative_path) duplicate_file
  index_files (put d f.relative_path f) fs

-- The variables of `walkTarZstd`, and the state of its callback.
pub record Walk (S : Type 0) : Type 0 where
  pub files : Dict ManifestFile
  pub seen : List Bytes
  pub total : ℤ
  pub state : S

check_name : Bytes → Check
unfolding validate_archive_data_path
check_name name =
    if text_eq name manifest_name || text_eq name checksums_name
    then ok tt
    else validate_archive_data_path name

-- The tests of a header before its name is looked at.
unfoldable pub check_header : {S : Type 0} → Walk S → TarEntry → Check
unfolding check_name
check_header w h = do
  fail_if (not h.is_regular) unsupported_entry
  check_name h.name
  fail_if (is_negative h.size || int_ltb max_archive_entry_bytes h.size) entry_too_large
  fail_if (int_ltb (max_bundle_uncompressed_bytes -ℤ h.size) w.total) bundle_too_large
  fail_if (contains w.seen h.name) duplicate_entry

module _ (sha256 : Bytes → Bytes) {S : Type 0}
    (fn : ManifestFile → Bytes → S → Result BundleError S) where
  -- A file of the manifest: its size and its hash are the manifest's.
  unfoldable pub walk_file : Walk S → TarEntry → Option ManifestFile → Result BundleError (Walk S)
  walk_file w h none = err not_in_manifest
  walk_file w h (some f) = do
    fail_if (not (int_eq h.size f.bytes)) size_mismatch
    s ← fn f h.content w.state
    fail_if (not (text_eq (Hex.encode (sha256 h.content)) f.sha256)) sha_mismatch
    ok (record w { files = delete w.files h.name; state = s })

  unfoldable pub walk_named : Walk S → TarEntry → Result BundleError (Walk S)
  walk_named w h =
      if text_eq h.name manifest_name
      then (do fail_if (int_ltb max_manifest_bytes h.size) manifest_too_large; ok w)
      else if text_eq h.name checksums_name
      then (do fail_if (int_ltb max_checksum_bytes h.size) checksums_too_large; ok w)
      else walk_file w h (get w.files h.name)

  unfoldable pub walk_entry : Walk S → TarEntry → Result BundleError (Walk S)
  walk_entry w h = do
    check_header w h
    walk_named (record w { seen = h.name ∷ w.seen; total = w.total +ℤ h.size }) h

  unfoldable pub walk_entries : Walk S → List TarEntry → Result BundleError (Walk S)
  walk_entries w [] = ok w
  walk_entries w (h ∷ hs) = do w' ← walk_entry w h; walk_entries w' hs

  unfoldable pub is_done : Dict ManifestFile → Bool
  is_done [] = true
  is_done (_ ∷ _) = false

  unfoldable pub walk_tar_zstd : TarFile → Manifest → S → Result BundleError S
  walk_tar_zstd file m s = do
    d ← index_files [] m.files
    w ← walk_entries (record { files = d; seen = []; total = pos 0; state = s }) file.entries
    fail_if (not file.is_whole) corrupt_stream
    fail_if (not (is_done w.files)) missing_file
    ok w.state

  -- `StreamManifestFiles`
  unfoldable pub stream_manifest_files : Json Manifest → TarFile → S → Result BundleError S
  stream_manifest_files json file s = do m ← read_manifest json file; walk_tar_zstd file m s
