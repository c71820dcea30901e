-- ===== src/Model/Snapshot/Files.antt =====
-- The records of a snapshot manifest, of internal/model/model.go and
-- internal/model/snapshot_manifest.go.
use aha.Prelude.{Bool, List}
use aha.Prelude.Int.{ℤ}
use aha.Text.{Bytes}

pub record AdapterCapabilities : Type 0 where
  pub has_threads : Bool
  pub has_subagents : Bool
  pub has_images : Bool
  pub has_tool_calls : Bool
  pub has_stable_entry_ids : Bool
  pub can_link_subagents : Bool

pub record ManifestSource : Type 0 where
  pub host_os : Bytes
  pub hostname_hash : Bytes
  pub user_hash : Bytes

pub record ManifestPolicy : Type 0 where
  pub path_mode : Bytes
  pub include_subagents : Bool
  pub include_images : Bool
  pub index_tool_output : Bool
  pub redaction : Bytes

pub record ManifestAdapt : Type 0 where
  pub name : Bytes
  pub version : Bytes
  pub capabilities : AdapterCapabilities

pub record ManifestFile : Type 0 where
  pub source : Bytes
  pub kind : Bytes
  pub relative_path : Bytes
  pub raw_path : Bytes
  pub sha256 : Bytes
  pub bytes : ℤ  -- int64
  pub session_id : Bytes
  pub cwd : Bytes
  pub started_at : Bytes
  pub entries : ℤ
  pub copy_state : Bytes
  pub is_subagent : Bool
  pub parent_hint : Bytes

pub record SnapshotManifest : Type 0 where
  pub schema : Bytes
  pub required_features : List Bytes
  pub optional_features : List Bytes
  pub machine_id : Bytes
  pub machine_label : Bytes
  pub captured_at : Bytes
  pub created_by : Bytes
  pub source : ManifestSource
  pub policy : ManifestPolicy
  pub adapters : List ManifestAdapt
  pub files : List ManifestFile

-- The canonical format of schema v2 has no feature declarations.
pub record LegacySnapshotManifestV2 : Type 0 where
  pub schema : Bytes
  pub machine_id : Bytes
  pub machine_label : Bytes
  pub captured_at : Bytes
  pub created_by : Bytes
  pub source : ManifestSource
  pub policy : ManifestPolicy
  pub adapters : List ManifestAdapt
  pub files : List ManifestFile
