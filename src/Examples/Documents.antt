-- ===== src/Examples/Documents.antt =====
-- Concrete document formats in the place of encoding/json, and a manifest with one session file.
use aha.Examples.Digest.{frame, weak_digest-IsDigest, weak_digest}
use aha.Depot.Codec.{LatestPointer, MachinesIndex, Externals}
use aha.Model.Snapshot.Codec.{from_legacy, ManifestJson}
use aha.Examples.Format.{
  ◌&◌, int_format, list_format, text_format, bool_format, convert, json_of, Format,
}
use aha.Prelude.{refl, true, false, [], ◌∷◌}
use aha.Prelude.Int.{pos}
use aha.Text.{Bytes, codes}
use aha.Model.Snapshot.Files.{
  ManifestAdapt, ManifestSource, ManifestPolicy, ManifestFile, AdapterCapabilities,
  SnapshotManifest,
}

abbrev pub session_sha : Bytes
session_sha = codes "1100000000000000000000000000000000000000000000000000000000000000"

abbrev pub session_file : ManifestFile
session_file = record {
  source = codes "pi";
  kind = codes "session";
  relative_path = codes "sources/pi/sessions/a.jsonl";
  raw_path = [];
  sha256 = session_sha;
  bytes = pos 17;
  session_id = codes "s-1";
  cwd = [];
  started_at = [];
  entries = pos 1;
  copy_state = codes "stable";
  is_subagent = false;
  parent_hint = [];
}

abbrev pub capabilities : AdapterCapabilities
capabilities = record {
  has_threads = true;
  has_subagents = false;
  has_images = false;
  has_tool_calls = true;
  has_stable_entry_ids = true;
  can_link_subagents = false;
}

abbrev pub one_session : SnapshotManifest
one_session = record {
  schema = codes "aha-snapshot-manifest/v2";
  required_features = [];
  optional_features = [];
  machine_id = codes "Work Mac";
  machine_label = [];
  captured_at = codes "state";
  created_by = codes "state";
  source = record { host_os = codes "darwin"; hostname_hash = []; user_hash = [] };
  policy = record {
    path_mode = codes "raw";
    include_subagents = false;
    include_images = false;
    index_tool_output = true;
    redaction = codes "none-v1";
  };
  adapters = record { name = codes "pi"; version = codes "1"; capabilities = capabilities } ∷ [];
  files = session_file ∷ [];
}

abbrev pub file_format : Format ManifestFile
file_format =
    convert
      (text_format & text_format & text_format & text_format & text_format & int_format
        & text_format & text_format & text_format & int_format & text_format & bool_format
        & text_format)
      (λ (a, (b, (c, (d, (e, (f, (g, (h, (i, (j, (k, (l, m)))))))))))). record {
        source = a;
        kind = b;
        relative_path = c;
        raw_path = d;
        sha256 = e;
        bytes = f;
        session_id = g;
        cwd = h;
        started_at = i;
        entries = j;
        copy_state = k;
        is_subagent = l;
        parent_hint = m;
      })
      (λ f. (
        f.source,
        (
          f.kind,
          (
            f.relative_path,
            (
              f.raw_path,
              (
                f.sha256,
                (
                  f.bytes,
                  (
                    f.session_id,
                    (
                      f.cwd,
                      (f.started_at, (f.entries, (f.copy_state, (f.is_subagent, f.parent_hint)))),
                    ),
                  ),
                ),
              ),
            ),
          ),
        ),
      ))
      (λ f. refl)

abbrev pub capabilities_format : Format AdapterCapabilities
capabilities_format =
    convert (bool_format & bool_format & bool_format & bool_format & bool_format & bool_format)
      (λ (a, (b, (c, (d, (e, f))))). record {
        has_threads = a;
        has_subagents = b;
        has_images = c;
        has_tool_calls = d;
        has_stable_entry_ids = e;
        can_link_subagents = f;
      })
      (λ c. (
        c.has_threads,
        (
          c.has_subagents,
          (c.has_images, (c.has_tool_calls, (c.has_stable_entry_ids, c.can_link_subagents))),
        ),
      ))
      (λ c. refl)

abbrev pub adapter_format : Format ManifestAdapt
adapter_format =
    convert (text_format & text_format & capabilities_format)
      (λ (a, (b, c)). record { name = a; version = b; capabilities = c })
      (λ a. (a.name, (a.version, a.capabilities))) (λ a. refl)

abbrev pub source_format : Format ManifestSource
source_format =
    convert (text_format & text_format & text_format)
      (λ (a, (b, c)). record { host_os = a; hostname_hash = b; user_hash = c })
      (λ s. (s.host_os, (s.hostname_hash, s.user_hash))) (λ s. refl)

abbrev pub policy_format : Format ManifestPolicy
policy_format =
    convert (text_format & bool_format & bool_format & bool_format & text_format)
      (λ (a, (b, (c, (d, e)))). record {
        path_mode = a;
        include_subagents = b;
        include_images = c;
        index_tool_output = d;
        redaction = e;
      })
      (λ p. (
        p.path_mode,
        (p.include_subagents, (p.include_images, (p.index_tool_output, p.redaction))),
      ))
      (λ p. refl)

abbrev pub manifest_format : Format SnapshotManifest
manifest_format =
    convert
      (text_format
        & list_format text_format
        & list_format text_format
        & text_format
        & text_format
        & text_format
        & text_format
        & source_format
        & policy_format
        & list_format adapter_format
        & list_format file_format)
      (λ (a, (b, (c, (d, (e, (f, (g, (h, (i, (j, k)))))))))). record {
        schema = a;
        required_features = b;
        optional_features = c;
        machine_id = d;
        machine_label = e;
        captured_at = f;
        created_by = g;
        source = h;
        policy = i;
        adapters = j;
        files = k;
      })
      (λ m. (
        m.schema,
        (
          m.required_features,
          (
            m.optional_features,
            (
              m.machine_id,
              (
                m.machine_label,
                (m.captured_at, (m.created_by, (m.source, (m.policy, (m.adapters, m.files))))),
              ),
            ),
          ),
        ),
      ))
      (λ m. refl)

-- A document of schema v2 is written with no features in it, and read back so.
abbrev pub manifest_documents : ManifestJson
manifest_documents = record {
  current = json_of manifest_format;
  marshal_legacy = λ l. manifest_format.put (from_legacy l);
  decode-marshal_legacy = λ l k. (json_of manifest_format).decode-marshal (from_legacy l) k;
}

abbrev pub pointer_format : Format LatestPointer
pointer_format =
    convert (text_format & text_format) (λ (a, b). record { schema = a; manifest_sha256 = b })
      (λ p. (p.schema, p.manifest_sha256)) (λ p. refl)

abbrev pub index_format : Format MachinesIndex
index_format =
    convert (text_format & list_format text_format) (λ (a, b). record { schema = a; machines = b })
      (λ i. (i.schema, i.machines)) (λ i. refl)

abbrev pub externals : Externals
externals = record {
  sha256 = weak_digest;
  digest = weak_digest-IsDigest;
  zstd = frame;
  manifest_json = manifest_documents;
  pointer_json = json_of pointer_format;
  index_json = json_of index_format;
  pointer_keeps = λ p a b. refl;
}
