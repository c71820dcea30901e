-- ===== src/Corpus/Stored.antt =====
-- internal/corpus/ingest.go: the rows of `tool_invocations` that insertToolInvocations gives to the
-- database, one for each call with an outcome. The counts of redactions are left out.
pub mod Retext
pub mod Private
use aha.Prelude.{Bool, true, false, not, ◌||◌, List, [], ◌∷◌, Option, none, some, if◌then◌else◌}
use aha.Prelude.Int.{ℤ}
use aha.Text.{Bytes, text_eq}
use aha.Text.Space.{is_blank}
use aha.Text.Dict.{Dict, get, has}
use aha.Redact.{Engine, Pattern, apply}
use aha.Corpus.Invocation.{ToolInvocation}
use aha.Corpus.Parsed.{ParsedEntry}
use aha.Corpus.Clusters.{Vars, normalize_error_signature}
use aha.Corpus.Pairing.{build_tool_invocations, fallback_error_signature}

pub record InvocationRow : Type 0 where
  pub session_key : Bytes
  pub entry_id : Bytes
  pub tool_key : Bytes
  pub tool_use_id : Bytes
  pub ordinal : ℤ
  pub tool_name : Bytes
  pub command_family : Bytes
  pub command : Bytes
  pub exit_code : Option ℤ
  pub is_error : Bool
  pub error_signature : Bytes
  pub outcome_text : Bytes
  pub timestamp : Bytes
  pub project_key : Bytes
  pub machine_id : Bytes

abbrev pub is_present : Dict Bytes → Bytes → Bytes → Bool
is_present present entry sha = elim (get present entry) [
  | none ↦ text_eq [] sha
  | some h ↦ text_eq h sha
]

-- The entries whose text is the one that the database has.
unfoldable pub accepted : (Bytes → Bytes) → Dict Bytes → List ParsedEntry → List ParsedEntry
accepted hash_of present [] = []
accepted hash_of present (e ∷ es) =
    let rest = accepted hash_of present es in
    if is_present present e.entry_id (hash_of e.raw_json) then e ∷ rest else rest

module _ {Re : Type 0} (engine : Engine Re) (submatch : Re → Bytes → Option Bytes)
    (to_lower : Bytes → Bytes) (vars : Vars Re) where
  abbrev redacted_by : Option (List (Pattern Re)) → Bytes → Bytes
  redacted_by none text = text
  redacted_by (some ps) text = if text_eq text [] then text else (apply engine ps text).0

  -- `applyRedaction`, where the redactor may be nil.
  unfoldable pub apply_redaction : Option (List (Pattern Re)) → Bytes → Bytes
  apply_redaction = redacted_by

  abbrev pub signature_or_fallback : Bytes → ToolInvocation → Bytes
  signature_or_fallback s inv = if text_eq s [] then fallback_error_signature inv else s

  -- `storedToolOutcome`: the signature, which is also the outcome text that is stored.
  unfoldable pub stored_tool_outcome : Bool → Option (List (Pattern Re)) → ToolInvocation → Bytes
  unfolding apply_redaction
  stored_tool_outcome index_output redactor inv =
      let output = apply_redaction redactor inv.outcome_text in
      let signature =
        apply_redaction redactor (normalize_error_signature engine submatch to_lower vars output) in
      if not inv.is_error
      then []
      else if not index_output || is_blank inv.outcome_text
      then fallback_error_signature inv
      else signature_or_fallback signature inv

  unfoldable pub row_of : Bool → Option (List (Pattern Re)) → Bytes → ToolInvocation → InvocationRow
  unfolding stored_tool_outcome
  row_of index_output redactor session inv =
      let stored = stored_tool_outcome index_output redactor inv in
      record {
        session_key = session;
        entry_id = inv.entry_id;
        tool_key = inv.tool_key;
        tool_use_id = inv.tool_use_id;
        ordinal = inv.ordinal;
        tool_name = inv.tool_name;
        command_family = apply_redaction redactor inv.command_family;
        command = apply_redaction redactor inv.command;
        exit_code = if inv.exit_code_valid then some inv.exit_code else none;
        is_error = inv.is_error;
        error_signature = stored;
        outcome_text = stored;
        timestamp = inv.timestamp;
        project_key = inv.project_key;
        machine_id = inv.machine_id;
      }

  -- The body of the loop over the invocations, in front of the rows of the later ones.
  unfoldable pub add_row :
      Bool
      → Option (List (Pattern Re))
      → Bytes
      → Dict Bytes
      → ToolInvocation
      → List InvocationRow
      → List InvocationRow
  unfolding row_of
  add_row index_output redactor session present inv rows =
      if not inv.outcome_observed
      then rows
      else if not (has present inv.entry_id)
      then rows
      else row_of index_output redactor session inv ∷ rows

  unfoldable pub rows_from :
      Bool
      → Option (List (Pattern Re))
      → Bytes
      → Dict Bytes
      → List ToolInvocation
      → List InvocationRow
  unfolding add_row
  rows_from index_output redactor session present [] = []
  rows_from index_output redactor session present (inv ∷ invs) =
      add_row index_output redactor session present inv
        (rows_from index_output redactor session present invs)

  -- `insertToolInvocations`
  unfoldable pub stored_rows :
      (Bytes → Bytes)
      → Bool
      → Option (List (Pattern Re))
      → Bytes
      → Bytes
      → Bytes
      → Dict Bytes
      → List ParsedEntry
      → List InvocationRow
  stored_rows hash_of index_output redactor session project machine present entries =
      rows_from index_output redactor session present (
        build_tool_invocations engine submatch to_lower vars project machine
          (accepted hash_of present entries))
