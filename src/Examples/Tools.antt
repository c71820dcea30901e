-- ===== src/Examples/Tools.antt =====
-- Two calls and three results, paired; the expressions are plain texts.
use aha.Text.Dict.{put}
use aha.Text.Dict.{has}
use aha.Corpus.Pairing.{add_result}
use aha.Corpus.Pairing.{add_results}
use aha.Corpus.Pairing.{collect}
use aha.Text.Dict.{get}
use aha.Corpus.Pairing.{with_outcome}
use aha.Text.{text_eq}
use aha.Corpus.Pairing.{says_nothing}
use aha.Corpus.Pairing.{is_legacy_call}
use aha.Corpus.Pairing.{calls_of_entry}
use aha.Corpus.Pairing.{build_from}
use aha.Prelude.{
  map, Bool, true, false, List, [], ◌∷◌, Option, none, some, ◌≡◌, refl, All, if◌then◌else◌,
}
use aha.Prelude.Int.{pos}
use aha.Text.{Bytes, codes, has_prefix}
use aha.Text.Space.{trim_space, fields}
use aha.Text.{text_eq, contains_text, contains_any}
use aha.Redact.{apply, apply_from, Engine}
use aha.Corpus.Invocation.{ToolInvocation}
use aha.Corpus.Parsed.{ParsedEntry, ParsedToolCall, ParsedToolResult}
use aha.Corpus.Clusters.{Vars, command_family}
use aha.Corpus.Pairing.{build_tool_invocations, calls_of}
use aha.Corpus.Stored.{InvocationRow, stored_rows}
use aha.Corpus.Stored.Retext.{retext}
use aha.Corpus.Stored.Private.{stored_rows-retext}
use aha.Corpus.Pairing.Matching.{
  Paired, all_results, unkeyed_results, build_tool_invocations-Paired,
}
use aha.Corpus.Pairing.Bounds.{IsTidy, build_tool_invocations-IsTidy}

-- Every expression is a prefix.
abbrev prefix_engine : Engine Bytes
prefix_engine = record {
  compile = λ source. some source;
  matches = λ r t. has_prefix t r;
  count = λ r t. if has_prefix t r then 1 else 0;
  replace_all = λ r t m. t;
}

abbrev no_group : Bytes → Bytes → Option Bytes
no_group r t = none

abbrev same_case : Bytes → Bytes
same_case t = t

abbrev plain_vars : Vars Bytes
plain_vars = record {
  hex_long = codes "x";
  uuid = codes "x";
  number = codes "x";
  quoted = codes "x";
  path = codes "x";
  space_run = codes "x";
  url = codes "x";
  arg_token = codes "-";
  leading_cd = codes "x";
  redactor = [];
}

abbrev call_of : Bytes → Bytes → ParsedToolCall
call_of i cmd = record {
  id = i;
  tool_name = codes "bash";
  command = cmd;
  files_json = [];
  ordinal = pos 0;
}

abbrev result_of : Bytes → Bool → ParsedToolResult
result_of i failed = record {
  for_id = i;
  is_error = failed;
  outcome_text = codes "no such file";
  exit_code = pos 1;
  exit_code_valid = true;
  ordinal = pos 0;
}

abbrev entry_of : List ParsedToolCall → List ParsedToolResult → ParsedEntry
entry_of calls results = record {
  entry_id = codes "e";
  parent_id = [];
  line_no = pos 1;
  entry_type = [];
  timestamp = [];
  role = [];
  raw_json = [];
  text = [];
  tool_name = [];
  command = [];
  files_json = [];
  tool_calls = calls;
  tool_results = results;
}

abbrev two_entries : List ParsedEntry
two_entries =
    entry_of
      (call_of (codes "k") (codes "A=1 git push --force origin")
        ∷ call_of [] (codes "ls /tmp")
        ∷ [])
      []
    ∷ entry_of []
        (result_of [] false ∷ result_of (codes "k") true ∷ result_of (codes "k") false ∷ [])
    ∷ []

git_push :
    command_family prefix_engine no_group same_case plain_vars
      (codes "bash")
      (codes "A=1 git push --force origin")
    ≡ codes "git push"
unfolding command_family text_eq trim_space fields apply apply_from contains_text contains_any
    has_prefix
git_push = refl

errors_of : List ToolInvocation → List Bool
errors_of [] = []
errors_of (iv ∷ ivs) = iv.is_error ∷ errors_of ivs

first_result_counts :
    errors_of (build_tool_invocations prefix_engine no_group same_case plain_vars [] [] two_entries)
    ≡ true ∷ false ∷ []
unfolding errors_of build_tool_invocations build_from calls_of calls_of_entry is_legacy_call
    says_nothing text_eq with_outcome get collect add_results add_result has put
first_result_counts = refl

build_tool_invocations-Paired_example :
    Paired prefix_engine no_group same_case plain_vars [] []
      (all_results two_entries)
      (unkeyed_results (all_results two_entries))
      (calls_of two_entries)
      (build_tool_invocations prefix_engine no_group same_case plain_vars [] [] two_entries)
build_tool_invocations-Paired_example =
    build_tool_invocations-Paired prefix_engine no_group same_case plain_vars [] [] two_entries

build_tool_invocations-IsTidy_example :
    All IsTidy
      (build_tool_invocations prefix_engine no_group same_case plain_vars [] [] two_entries)
build_tool_invocations-IsTidy_example =
    build_tool_invocations-IsTidy prefix_engine no_group same_case plain_vars [] [] two_entries

abbrev no_text : Bytes → Bytes
no_text t = []

abbrev one_hash : Bytes → Bytes
one_hash t = codes "h"

abbrev rows_of_entries : List ParsedEntry → List InvocationRow
rows_of_entries =
    stored_rows prefix_engine no_group same_case plain_vars one_hash false none (codes "s") [] []
      ((codes "e", codes "h") ∷ [])

stored_rows-retext_example :
    rows_of_entries (map (retext no_text) two_entries) ≡ rows_of_entries two_entries
stored_rows-retext_example =
    stored_rows-retext no_text prefix_engine no_group same_case plain_vars none (codes "s") [] []
      ((codes "e", codes "h") ∷ []) one_hash two_entries
