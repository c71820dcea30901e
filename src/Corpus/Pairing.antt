-- ===== src/Corpus/Pairing.antt =====
-- `BuildToolInvocations` of internal/corpus/clusters.go: the pairing of tool calls with results.
pub mod Matching
pub mod Bounds
use aha.Prelude.{
  ℕ, suc, Bool, true, false, ◌||◌, ◌&&◌, not, List, [], ◌∷◌, ◌++◌, Option, none, some, map, length,
  ltb, get_elem?, if◌then◌else◌,
}
use aha.Prelude.Int.{ℤ, pos}
use aha.Text.{Bytes, codes, text_eq}
use aha.Text.Dict.{Dict, get, put, has}
use aha.Text.Decimal.{format_int, format_int3}
use aha.Redact.{Engine}
use aha.Corpus.Invocation.{ToolInvocation}
use aha.Corpus.Parsed.{ParsedEntry, ParsedToolCall, ParsedToolResult}
use aha.Corpus.Clusters.{Vars, command_family, normalize_error_signature}

pub record Outcome : Type 0 where
  pub is_error : Bool
  pub text : Bytes
  pub exit_code : ℤ
  pub exit_code_valid : Bool

abbrev pub outcome_of : ParsedToolResult → Outcome
outcome_of r = record {
  is_error = r.is_error;
  text = r.outcome_text;
  exit_code = r.exit_code;
  exit_code_valid = r.exit_code_valid;
}

-- The outcomes by the identifier of their call, and those without one in order.
pub record Results : Type 0 where
  pub by_id : Dict Outcome
  pub unkeyed : List Outcome

unfoldable pub add_result : Results → ParsedToolResult → Results
add_result s r =
    if text_eq r.for_id []
    then record s { unkeyed = s.unkeyed ++ outcome_of r ∷ [] }
    else if has s.by_id r.for_id
    then s
    else record s { by_id = put s.by_id r.for_id (outcome_of r) }

unfoldable pub add_results : Results → List ParsedToolResult → Results
add_results s [] = s
add_results s (r ∷ rs) = add_results (add_result s r) rs

unfoldable pub collect : Results → List ParsedEntry → Results
collect s [] = s
collect s (e ∷ es) = collect (add_results s e.tool_results) es

abbrev pub Item : Type 0
Item = ParsedEntry × ParsedToolCall

abbrev pub is_empty {ℓ} : {A : Type ℓ} → List A → Bool
is_empty [] = true
is_empty (x ∷ xs) = false

-- An entry of the older form, whose own fields are its only call.
unfoldable pub is_legacy_call : ParsedEntry → Bool
is_legacy_call e =
    is_empty e.tool_calls
    && is_empty e.tool_results
    && not (text_eq e.role (codes "toolResult"))
    && not (text_eq e.role (codes "bashExecution"))
    && (not (text_eq e.tool_name []) || not (text_eq e.command []))

abbrev pub legacy_call : ParsedEntry → ParsedToolCall
legacy_call e = record {
  id = [];
  tool_name = e.tool_name;
  command = e.command;
  files_json = e.files_json;
  ordinal = pos 0;
}

unfoldable pub calls_of_entry : ParsedEntry → List Item
calls_of_entry e =
    if is_legacy_call e then (e, legacy_call e) ∷ [] else map (λ c. (e, c)) e.tool_calls

unfoldable pub calls_of : List ParsedEntry → List Item
calls_of [] = []
calls_of (e ∷ es) = calls_of_entry e ++ calls_of es

unfoldable pub says_nothing : ParsedToolCall → Bool
says_nothing c = text_eq c.tool_name [] && text_eq c.command [] && text_eq c.files_json []

-- The outcome of a call, and the number of outcomes without an identifier that are used after it.
unfoldable pub outcome_at : Results → ParsedToolCall → ℕ → Option Outcome × ℕ
outcome_at s c i =
    if not (text_eq c.id [])
    then (get s.by_id c.id, i)
    else if ltb i (length s.unkeyed)
    then (get_elem? s.unkeyed i, suc i)
    else (none, i)

module _ {Re : Type 0} (engine : Engine Re) (submatch : Re → Bytes → Option Bytes)
    (to_lower : Bytes → Bytes) (vars : Vars Re) (project_key machine_id : Bytes) where
  -- The invocation of a call before its outcome is known. The caller sets its session.
  unfoldable pub call_invocation : Item → ToolInvocation
  call_invocation (e, c) =
      let family = command_family engine submatch to_lower vars c.tool_name c.command in
      record {
        session_key = [];
        entry_id = e.entry_id;
        line_no = e.line_no;
        tool_key = if text_eq c.id [] then codes "#" ++ format_int3 c.ordinal else c.id;
        tool_use_id = c.id;
        ordinal = c.ordinal;
        tool_name = c.tool_name;
        command_family = family;
        command = family;
        exit_code = pos 0;
        exit_code_valid = false;
        is_error = false;
        error_signature = [];
        outcome_text = [];
        outcome_observed = false;
        timestamp = e.timestamp;
        project_key = project_key;
        machine_id = machine_id;
      }

  unfoldable pub with_outcome : ToolInvocation → Option Outcome → ToolInvocation
  with_outcome inv none = inv
  with_outcome inv (some o) = record inv {
    outcome_observed = true;
    is_error = o.is_error;
    exit_code = o.exit_code;
    exit_code_valid = o.exit_code_valid;
    outcome_text = if o.is_error then o.text else inv.outcome_text;
    error_signature =
        if o.is_error
        then normalize_error_signature engine submatch to_lower vars o.text
        else inv.error_signature;
  }

  -- The loop over the calls that are left.
  unfoldable pub build_from : Results → List Item → ℕ → List ToolInvocation
  unfolding outcome_at
  build_from s [] i = []
  build_from s ((e, c) ∷ items) i =
      let (o, j) = outcome_at s c i in
      let rest = build_from s items (if says_nothing c then i else j) in
      if says_nothing c then rest else with_outcome (call_invocation (e, c)) o ∷ rest

  unfoldable pub build_tool_invocations : List ParsedEntry → List ToolInvocation
  build_tool_invocations entries =
      build_from (collect (record { by_id = []; unkeyed = [] }) entries) (calls_of entries) 0

unfoldable pub fallback_error_signature : ToolInvocation → Bytes
fallback_error_signature inv =
    if inv.exit_code_valid
    then codes "exit_code:" ++ format_int inv.exit_code
    else codes "tool_error"
