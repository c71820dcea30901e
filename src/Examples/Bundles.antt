-- ===== src/Examples/Bundles.antt =====
-- A bundle of one session, read to its end.
use aha.Text.{contains}
use aha.Text.Dict.{put}
use aha.Text.Path.{is_abs}
use aha.Capture.Bundle.{walk_file}
use aha.Model.Snapshot.Validate.{validate_source_data_path}
use aha.Text.{contains_byte}
use aha.Text.Dict.{delete}
use aha.Text.{contains_text}
use aha.Text.Path.{clean}
use aha.Capture.Bundle.{walk_entries}
use aha.Prelude.Int.{◌+ℤ◌}
use aha.Text.{has_prefix}
use aha.Text.{split}
use aha.Prelude.Int.{is_negative}
use aha.Text.Dict.{has}
use aha.Capture.Bundle.{walk_entry}
use aha.Prelude.Int.{int_eq}
use aha.Capture.Bundle.{check_header}
use aha.Capture.Bundle.{is_done}
use aha.Prelude.Int.{int_ltb}
use aha.Text.Dict.{get}
use aha.Capture.Bundle.{index_files}
use aha.Prelude.Int.{neg}
use aha.Capture.Bundle.{walk_named}
use aha.Text.{text_eq}
use aha.Encoding.Hex
use aha.Prelude.{true, ◌≡◌, List, [], ◌∷◌, ◌++◌, ok, refl, All}
use aha.Prelude.Int.{pos}
use aha.Text.{Bytes, codes, contains}
use aha.Model.Snapshot.Files.{ManifestFile}
use aha.Capture.Bundle.{
  Manifest, TarEntry, TarFile, walk_tar_zstd, bundle_schema, manifest_name, checksums_name,
}
use aha.Capture.Bundle.Visits.{entries_of, data_entries, called, IsOnce, names}
use aha.Capture.Bundle.Intact.{IsRead, walk_tar_zstd-IsRead}
use aha.Examples.Digest.{weak_digest}
use aha.Examples.Documents.{one_session, session_file}

abbrev content : Bytes
content = codes "{\"role\":\"user\"}\n\n"

abbrev bundle : Manifest
bundle = record {
  schema = bundle_schema;
  bundle_id = codes "b-1";
  machine_id = codes "Work Mac";
  machine_label = [];
  captured_at = codes "2026-01-02T03:04:05Z";
  created_by = codes "aha 0.2";
  implementation = record { language = codes "go"; archive = codes "tar.zst" };
  source = one_session.source;
  policy = one_session.policy;
  counts = record {
    session_files = pos 1;
    artifact_files = pos 0;
    image_files = pos 0;
    bytes_uncompressed = pos 17;
  };
  adapters = [];
  files = session_file ∷ [];
}

abbrev entry : Bytes → Bytes → TarEntry
entry name b = record { name = name; is_regular = true; size = pos 17; content = b }

abbrev tar : TarFile
tar = record {
  entries =
      entry manifest_name []
      ∷ entry session_file.relative_path content
      ∷ entry checksums_name []
      ∷ [];
  is_whole = true;
}

walked : walk_tar_zstd weak_digest (λ f b s. ok (s ++ b)) tar bundle [] ≡ ok content
unfolding Hex.encode check_header clean contains contains_byte contains_text delete get has
    has_prefix index_files int_eq int_ltb is_abs is_done is_negative neg put split text_eq
    validate_source_data_path walk_entries walk_entry walk_file walk_named walk_tar_zstd ◌+ℤ◌
walked = refl

walk_tar_zstd-IsRead_example :
    (true ≡ true)
    × (visits : List (ManifestFile × TarEntry)) × (called weak_digest
          (λ f b s. ok (s ++ b))
          visits
          []
        ≡ ok content)
    × (entries_of weak_digest (λ f b s. ok (s ++ b)) visits ≡ data_entries tar.entries)
    × All (IsRead weak_digest (λ f b s. ok (s ++ b)) bundle.files) visits
    × IsOnce weak_digest (λ f b s. ok (s ++ b)) (names weak_digest (λ f b s. ok (s ++ b)) visits)
    × All
        (λ (f : ManifestFile).
          contains (names weak_digest (λ f b s. ok (s ++ b)) visits) f.relative_path ≡ true)
        bundle.files
walk_tar_zstd-IsRead_example = walk_tar_zstd-IsRead weak_digest _ tar bundle [] content walked
