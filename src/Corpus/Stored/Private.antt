-- ===== src/Corpus/Stored/Private.antt =====
-- With the indexing of tool output switched off, what internal/corpus/ingest.go stores of the tool
-- calls of a session does not depend on that output.
use aha.Prelude.{
  ℕ, Bool, true, false, List, [], ◌∷◌, Option, none, some, map, if◌then◌else◌, ◌≡◌, refl, ap, ◌∙◌,
}
use aha.Text.{Bytes}
use aha.Text.Dict.{Dict}
use aha.Redact.{Engine, Pattern}
use aha.Corpus.Invocation.{ToolInvocation}
use aha.Corpus.Parsed.{ParsedEntry}
use aha.Corpus.Clusters.{Vars}
use aha.Corpus.Pairing.{
  Outcome, Results, collect, Item, calls_of, says_nothing, outcome_at, call_invocation,
  with_outcome, build_from, build_tool_invocations, fallback_error_signature,
}
use aha.Corpus.Stored.{
  InvocationRow, add_row, row_of, rows_from, stored_tool_outcome, accepted, stored_rows,
}
use aha.Corpus.Stored.Retext.{
  retext, retext_results, retext_item, retext_option, collect-retext, calls_of-retext,
  outcome_at-retext, accepted-retext,
}

module _ (f : Bytes → Bytes) {Re : Type 0} (engine : Engine Re)
    (submatch : Re → Bytes → Option Bytes) (to_lower : Bytes → Bytes) (vars : Vars Re)
    (redactor : Option (List (Pattern Re))) (session project machine : Bytes)
    (present : Dict Bytes) where
  abbrev rows : List ToolInvocation → List InvocationRow
  rows = rows_from engine submatch to_lower vars false redactor session present

  abbrev building : Results → List Item → ℕ → List ToolInvocation
  building = build_from engine submatch to_lower vars project machine

  abbrev made : Item → Option Outcome → ToolInvocation
  made x o =
      with_outcome engine submatch to_lower vars project machine
        (call_invocation engine submatch to_lower vars project machine x) o

  add_row-retext :
      (x : Item) (o : Option Outcome) (later : List InvocationRow)
      → add_row engine submatch to_lower vars false redactor session present
          (made ((retext_item f) x) ((retext_option f) o))
          later
        ≡ add_row engine submatch to_lower vars false redactor session present (made x o) later
  unfolding add_row row_of stored_tool_outcome with_outcome call_invocation fallback_error_signature
  add_row-retext (e, c) none later = refl
  add_row-retext (e, c) (some o) later = refl

  rows-retext :
      (s : Results) (items : List Item) (i : ℕ)
      → rows (building ((retext_results f) s) (map (retext_item f) items) i)
        ≡ rows (building s items i)
  unfolding build_from rows_from
  rows-retext s [] i = refl
  rows-retext s ((e, c) ∷ items) i =
      ap after (outcome_at-retext f s c i) ∙ chosen (says_nothing c) (rows-retext s items)
    where
      after : Option Outcome × ℕ → List InvocationRow
      after p =
          let rest =
            building ((retext_results f) s) (map (retext_item f) items)
              (if says_nothing c then i else p.1) in
          rows (if says_nothing c then rest else made ((retext f) e, c) p.0 ∷ rest)

      chosen :
          (b : Bool)
          → ((j : ℕ)
              → rows (building ((retext_results f) s) (map (retext_item f) items) j)
                ≡ rows (building s items j))
          → rows (
              if b
              then building
                  ((retext_results f) s)
                  (map (retext_item f) items)
                  (if b then i else (outcome_at s c i).1)
              else made ((retext f) e, c) ((retext_option f) (outcome_at s c i).0)
                ∷ building
                    ((retext_results f) s)
                    (map (retext_item f) items)
                    (if b then i else (outcome_at s c i).1))
            ≡ rows (
                if b
                then building s items (if b then i else (outcome_at s c i).1)
                else made (e, c) (outcome_at s c i).0
                  ∷ building s items (if b then i else (outcome_at s c i).1))
      chosen true again = again i
      chosen false again =
          add_row-retext (e, c) (outcome_at s c i).0 _
          ∙ ap
              (add_row engine submatch to_lower vars false redactor session present
                (made (e, c) (outcome_at s c i).0))
              (again (outcome_at s c i).1)

  -- Where the indexing of tool output is off, the rows that are stored of the tool calls of a session
  -- stay the same when the text of every tool result is replaced by any function of it.
  pub stored_rows-retext :
      (hash_of : Bytes → Bytes) (entries : List ParsedEntry)
      → stored_rows engine submatch to_lower vars hash_of false redactor session project machine
          present
          (map (retext f) entries)
        ≡ stored_rows engine submatch to_lower vars hash_of false redactor session project machine
            present entries
  unfolding stored_rows build_tool_invocations
  stored_rows-retext hash_of entries =
      let start : Results = record { by_id = []; unkeyed = [] } in
      let es = accepted hash_of present entries in
      ap (λ l. rows (building (collect start l) (calls_of l) 0))
        (accepted-retext f hash_of present entries)
      ∙ ap (λ s. rows (building s (calls_of (map (retext f) es)) 0)) (collect-retext f start es)
      ∙ ap (λ l. rows (building ((retext_results f) (collect start es)) l 0)) (calls_of-retext f es)
      ∙ rows-retext (collect start es) (calls_of es) 0
