-- ===== src/Corpus/Pairing/Bounds.antt =====
-- What every invocation that `BuildToolInvocations` makes holds of an outcome.
use aha.Prelude.{
  ℕ, Bool, true, false, ◌≤◌, List, [], ◌∷◌, Option, none, some, length, All, ◌≡◌, refl,
  if◌then◌else◌, arith,
}
use aha.Text.{Bytes}
use aha.Redact.{Engine}
use aha.Corpus.Invocation.{ToolInvocation}
use aha.Corpus.Parsed.{ParsedEntry}
use aha.Corpus.Clusters.{Vars}
use aha.Corpus.Clusters.Family.{length-normalize_error_signature}
use aha.Corpus.Pairing.{
  Outcome, Results, Item, calls_of, says_nothing, outcome_at, call_invocation, with_outcome,
  build_from, build_tool_invocations,
}

-- Only a failed call keeps text of its result, and its signature is at most 200 bytes long; and only
-- a call with a result has failed.
pub record IsTidy (iv : ToolInvocation) : Type 0 where
  pub short : length iv.error_signature ≤ 200
  pub no_text : iv.is_error ≡ false → (iv.outcome_text ≡ []) × (iv.error_signature ≡ [])
  pub observed : iv.outcome_observed ≡ false → iv.is_error ≡ false
  pub same_family : iv.command ≡ iv.command_family

short_if : (b : Bool) (s : Bytes) → length s ≤ 200 → length (if b then s else []) ≤ 200
short_if true s h = h
short_if false s h = omega arith

blank_if : (b : Bool) (s : Bytes) → b ≡ false → (if b then s else []) ≡ []
blank_if true s h = cc
blank_if false s h = refl

All-if_cons :
    (P : ToolInvocation → Type 0) (b : Bool) (iv : ToolInvocation) (rest : List ToolInvocation)
    → P iv
    → All P rest
    → All P (if b then rest else iv ∷ rest)
All-if_cons P true iv rest p ps = ps
All-if_cons P false iv rest p ps = (p, ps)

module _ {Re : Type 0} (engine : Engine Re) (submatch : Re → Bytes → Option Bytes)
    (to_lower : Bytes → Bytes) (vars : Vars Re) (project_key machine_id : Bytes) where
  outcome-IsTidy :
      (x : Item) (o : Option Outcome)
      → IsTidy (
          with_outcome engine submatch to_lower vars project_key machine_id
            (call_invocation engine submatch to_lower vars project_key machine_id x)
            o)
  unfolding with_outcome call_invocation
  outcome-IsTidy (e, c) none = record {
    short = omega arith;
    no_text = λ h. (refl, refl);
    observed = λ h. refl;
    same_family = refl;
  }
  outcome-IsTidy (e, c) (some o) = record {
    short =
        short_if o.is_error _
          (length-normalize_error_signature engine submatch to_lower vars o.text);
    no_text = λ h. (blank_if o.is_error _ h, blank_if o.is_error _ h);
    observed = λ h. cc;
    same_family = refl;
  }

  build_from-IsTidy :
      (s : Results) (items : List Item) (i : ℕ)
      → All IsTidy (build_from engine submatch to_lower vars project_key machine_id s items i)
  unfolding build_from
  build_from-IsTidy s [] i = tt
  build_from-IsTidy s ((e, c) ∷ items) i =
      All-if_cons IsTidy (says_nothing c) _ _ (outcome-IsTidy (e, c) (outcome_at s c i).0)
        (build_from-IsTidy s items (if says_nothing c then i else (outcome_at s c i).1))

  -- Of every invocation that `BuildToolInvocations` makes: the error signature is at most 200 bytes
  -- long; one that is no error has neither a signature nor text of its result; one without a result
  -- is no error; and the command kept is the command family.
  pub build_tool_invocations-IsTidy :
      (entries : List ParsedEntry)
      → All IsTidy
          (build_tool_invocations engine submatch to_lower vars project_key machine_id entries)
  unfolding build_tool_invocations
  build_tool_invocations-IsTidy entries = build_from-IsTidy _ (calls_of entries) 0
