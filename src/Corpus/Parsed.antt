-- ===== src/Corpus/Parsed.antt =====
-- internal/model/model.go: what an adapter makes of one entry of a session, as far as the pairing of
-- tool calls reads it.
use aha.Prelude.{Bool, List}
use aha.Prelude.Int.{ℤ}
use aha.Text.{Bytes}

pub record ParsedToolCall : Type 0 where
  pub id : Bytes
  pub tool_name : Bytes
  pub command : Bytes
  pub files_json : Bytes
  pub ordinal : ℤ

pub record ParsedToolResult : Type 0 where
  pub for_id : Bytes
  pub is_error : Bool
  pub outcome_text : Bytes
  pub exit_code : ℤ
  pub exit_code_valid : Bool
  pub ordinal : ℤ

pub record ParsedEntry : Type 0 where
  pub entry_id : Bytes
  pub parent_id : Bytes
  pub line_no : ℤ
  pub entry_type : Bytes
  pub timestamp : Bytes
  pub role : Bytes
  pub raw_json : Bytes
  pub text : Bytes
  pub tool_name : Bytes
  pub command : Bytes
  pub files_json : Bytes
  pub tool_calls : List ParsedToolCall
  pub tool_results : List ParsedToolResult
