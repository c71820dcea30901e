-- ===== src/Corpus/Invocation.antt =====
-- `ToolInvocation` of internal/corpus/clusters.go: one paired tool call.
use aha.Prelude.{Bool}
use aha.Prelude.Int.{ℤ}
use aha.Text.{Bytes}

pub record ToolInvocation : Type 0 where
  pub session_key : Bytes
  pub entry_id : Bytes
  pub line_no : ℤ
  pub tool_key : Bytes
  pub tool_use_id : Bytes
  pub ordinal : ℤ
  pub tool_name : Bytes
  pub command_family : Bytes
  pub command : Bytes
  pub exit_code : ℤ
  pub exit_code_valid : Bool
  pub is_error : Bool
  pub error_signature : Bytes
  pub outcome_text : Bytes
  pub outcome_observed : Bool
  pub timestamp : Bytes
  pub project_key : Bytes
  pub machine_id : Bytes
