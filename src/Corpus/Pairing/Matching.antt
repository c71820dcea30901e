-- ===== src/Corpus/Pairing/Matching.antt =====
-- Which result each tool call is paired with: `BuildToolInvocations` against a relation that takes
-- the calls one by one.
use aha.Prelude.{
  ℕ, zero, suc, Bool, true, false, ◌<◌, ◌≤◌, List, [], ◌∷◌, ◌++◌, Option, none, some, length, drop,
  get_elem?, if◌then◌else◌, ◌≡◌, ◌≢◌, ◌⊎◌, inl, inr, refl, Bool-cases, arith, subst, sym, ap, ◌∙◌,
  append_assoc, append-nil,
}
use aha.Text.{Bytes, text_eq, text_eq_iff}
use aha.Text.Dict.{Dict, get, has, get-put}
use aha.Redact.{Engine}
use aha.Corpus.Invocation.{ToolInvocation}
use aha.Corpus.Parsed.{ParsedEntry, ParsedToolCall, ParsedToolResult}
use aha.Corpus.Clusters.{Vars}
use aha.Corpus.Pairing.{
  Outcome, outcome_of, Results, add_result, add_results, collect, Item, calls_of, says_nothing,
  outcome_at, call_invocation, with_outcome, build_from, build_tool_invocations,
}

abbrev pub all_results : List ParsedEntry → List ParsedToolResult
all_results [] = []
all_results (e ∷ es) = e.tool_results ++ all_results es

-- The first result that names a call.
abbrev pub first_result : Bytes → List ParsedToolResult → Option Outcome
first_result id [] = none
first_result id (r ∷ rs) = if text_eq r.for_id id then some (outcome_of r) else first_result id rs

-- The results that name no call.
abbrev pub unkeyed_results : List ParsedToolResult → List Outcome
unkeyed_results [] = []
unkeyed_results (r ∷ rs) =
    let rest = unkeyed_results rs in if text_eq r.for_id [] then outcome_of r ∷ rest else rest

add_results-append :
    (s : Results) (rs qs : List ParsedToolResult)
    → add_results s (rs ++ qs) ≡ add_results (add_results s rs) qs
unfolding add_results
add_results-append s [] qs = refl
add_results-append s (r ∷ rs) qs = add_results-append (add_result s r) rs qs

collect-all_results :
    (s : Results) (es : List ParsedEntry) → collect s es ≡ add_results s (all_results es)
unfolding collect add_results
collect-all_results s [] = refl
collect-all_results s (e ∷ es) =
    collect-all_results (add_results s e.tool_results) es
    ∙ sym (add_results-append s e.tool_results (all_results es))

abbrev or_else : Option Outcome → Option Outcome → Option Outcome
or_else none o = o
or_else (some p) o = some p

abbrev is_some : Option Outcome → Bool
is_some none = false
is_some (some o) = true

has-get : (d : Dict Outcome) (k : Bytes) → has d k ≡ is_some (get d k)
unfolding has get
has-get [] k = refl
has-get ((j, o) ∷ d) k = ground (arith, has-get d k)

get-add_result :
    (s : Results) (r : ParsedToolResult) (id : Bytes)
    → id ≢ []
    → get (add_result s r).by_id id
      ≡ or_else (get s.by_id id) (if text_eq r.for_id id then some (outcome_of r) else none)
unfolding add_result
get-add_result s r id n = ground (
  arith,
  has-get s.by_id r.for_id,
  get-put s.by_id r.for_id (outcome_of r) id,
  text_eq_iff r.for_id id,
  text_eq_iff r.for_id [],
)

get-add_results :
    (s : Results) (rs : List ParsedToolResult) (id : Bytes)
    → id ≢ []
    → get (add_results s rs).by_id id ≡ or_else (get s.by_id id) (first_result id rs)
unfolding add_results
get-add_results s [] id n = ground arith
get-add_results s (r ∷ rs) id n =
    ground (arith, get-add_results (add_result s r) rs id n, get-add_result s r id n)

unkeyed-add_results :
    (s : Results) (rs : List ParsedToolResult)
    → (add_results s rs).unkeyed ≡ s.unkeyed ++ unkeyed_results rs
unfolding add_results add_result
unkeyed-add_results s [] = sym (append-nil s.unkeyed)
unkeyed-add_results s (r ∷ rs) = ground (
  arith,
  unkeyed-add_results (add_result s r) rs,
  append_assoc s.unkeyed (outcome_of r ∷ []) (unkeyed_results rs),
)

drop-cases :
    (i : ℕ) (us : List Outcome)
    → ((o : Outcome) × (i < length us)
        × (get_elem? us i ≡ some o)
        × (drop i us ≡ o ∷ drop (suc i) us))
      ⊎ ((length us ≤ i) × (drop i us ≡ []))
drop-cases zero [] = inr (omega arith, refl)
drop-cases (suc i) [] = inr (omega arith, refl)
drop-cases zero (u ∷ us) = inl (u, omega arith, refl, refl)
drop-cases (suc i) (u ∷ us) = elim (drop-cases i us) [
  | inl (o, l, g, d) ↦ inl (o, omega arith, g, d)
  | inr (l, d) ↦ inr (omega arith, d)
]

named : {n : Bytes} → text_eq n [] ≡ false → n ≢ []
named {n} h q = ground (arith, text_eq_iff n [])

module _ {Re : Type 0} (engine : Engine Re) (submatch : Re → Bytes → Option Bytes)
    (to_lower : Bytes → Bytes) (vars : Vars Re) (project_key machine_id : Bytes) where
  -- The invocation of a call with the outcome that it is paired with.
  abbrev pub outcome_invocation : Item → Option Outcome → ToolInvocation
  outcome_invocation x o =
      with_outcome engine submatch to_lower vars project_key machine_id
        (call_invocation engine submatch to_lower vars project_key machine_id x) o

  -- A call that says nothing has no invocation. Every other call has one: with an identifier, its
  -- outcome is that of the first result with this identifier, if any; without one, it takes the next
  -- of the results without an identifier, while there are any.
  pub data Paired (rs : List ParsedToolResult)
      : List Outcome → List Item → List ToolInvocation → Type 0 where
    done : {us : List Outcome} → Paired rs us [] []
    silent :
        {us : List Outcome} {e : ParsedEntry} {c : ParsedToolCall} {items : List Item}
        {ivs : List ToolInvocation}
        → says_nothing c ≡ true
        → Paired rs us items ivs
        → Paired rs us ((e, c) ∷ items) ivs
    keyed :
        {us : List Outcome} {e : ParsedEntry} {c : ParsedToolCall} {items : List Item}
        {ivs : List ToolInvocation}
        → says_nothing c ≡ false
        → c.id ≢ []
        → Paired rs us items ivs
        → Paired rs us ((e, c) ∷ items) (outcome_invocation (e, c) (first_result c.id rs) ∷ ivs)
    next :
        {u : Outcome} {us : List Outcome} {e : ParsedEntry} {c : ParsedToolCall} {items : List Item}
        {ivs : List ToolInvocation}
        → says_nothing c ≡ false
        → c.id ≡ []
        → Paired rs us items ivs
        → Paired rs (u ∷ us) ((e, c) ∷ items) (outcome_invocation (e, c) (some u) ∷ ivs)
    exhausted :
        {e : ParsedEntry} {c : ParsedToolCall} {items : List Item} {ivs : List ToolInvocation}
        → says_nothing c ≡ false
        → c.id ≡ []
        → Paired rs [] items ivs
        → Paired rs [] ((e, c) ∷ items) (outcome_invocation (e, c) none ∷ ivs)

  abbrev building : Results → List Item → ℕ → List ToolInvocation
  building = build_from engine submatch to_lower vars project_key machine_id

  build_from-silent :
      (s : Results) (e : ParsedEntry) (c : ParsedToolCall) (items : List Item) (i : ℕ)
      → says_nothing c ≡ true
      → building s ((e, c) ∷ items) i ≡ building s items i
  unfolding build_from
  build_from-silent s e c items i h = ground arith

  build_from-spoken :
      (s : Results) (e : ParsedEntry) (c : ParsedToolCall) (items : List Item) (i j : ℕ)
      (o : Option Outcome)
      → says_nothing c ≡ false
      → outcome_at s c i ≡ (o, j)
      → building s ((e, c) ∷ items) i ≡ outcome_invocation (e, c) o ∷ building s items j
  unfolding build_from
  build_from-spoken s e c items i j o h q = ground (arith, ap (λ r. r.0) q, ap (λ r. r.1) q)

  outcome_at-keyed :
      (s : Results) (c : ParsedToolCall) (i : ℕ)
      → text_eq c.id [] ≡ false
      → outcome_at s c i ≡ (get s.by_id c.id, i)
  unfolding outcome_at
  outcome_at-keyed s c i h = ground arith

  outcome_at-next :
      (s : Results) (c : ParsedToolCall) (i : ℕ)
      → text_eq c.id [] ≡ true
      → i < length s.unkeyed
      → outcome_at s c i ≡ (get_elem? s.unkeyed i, suc i)
  unfolding outcome_at
  outcome_at-next s c i h l = ground arith

  outcome_at-exhausted :
      (s : Results) (c : ParsedToolCall) (i : ℕ)
      → text_eq c.id [] ≡ true
      → length s.unkeyed ≤ i
      → outcome_at s c i ≡ (none, i)
  unfolding outcome_at
  outcome_at-exhausted s c i h l = ground arith

  build_from-Paired :
      (s : Results) (rs : List ParsedToolResult)
      → ((id : Bytes) → id ≢ [] → get s.by_id id ≡ first_result id rs)
      → (items : List Item) (i : ℕ) → Paired rs (drop i s.unkeyed) items (building s items i)
  unfolding build_from
  build_from-Paired s rs k [] i = done
  build_from-Paired s rs k ((e, c) ∷ items) i = elim (Bool-cases (says_nothing c)) [
    | inl h ↦
        subst (Paired rs (drop i s.unkeyed) ((e, c) ∷ items))
          (sym (build_from-silent s e c items i h)) (silent h (build_from-Paired s rs k items i))
    | inr h ↦ elim (Bool-cases (text_eq c.id [])) [
      | inl b ↦ elim (drop-cases i s.unkeyed) [
        | inl (o, l, g, d) ↦
            subst (λ us. Paired rs us ((e, c) ∷ items) (building s ((e, c) ∷ items) i)) (sym d)
              (subst (Paired rs (o ∷ drop (suc i) s.unkeyed) ((e, c) ∷ items))
                (sym (
                  build_from-spoken s e c items i (suc i) (some o) h
                    (outcome_at-next s c i b l ∙ ap (λ (p : Option Outcome). (p, suc i)) g)))
                (next h ((text_eq_iff c.id []).0 b) (build_from-Paired s rs k items (suc i))))
        | inr (l, d) ↦
            subst (λ us. Paired rs us ((e, c) ∷ items) (building s ((e, c) ∷ items) i)) (sym d)
              (subst (Paired rs [] ((e, c) ∷ items))
                (sym (build_from-spoken s e c items i i none h (outcome_at-exhausted s c i b l)))
                (exhausted h ((text_eq_iff c.id []).0 b) (
                  subst (λ us. Paired rs us items (building s items i)) d
                    (build_from-Paired s rs k items i))))
      ]
      | inr b ↦
          subst (Paired rs (drop i s.unkeyed) ((e, c) ∷ items))
            (sym (
              build_from-spoken s e c items i i (first_result c.id rs) h (
                outcome_at-keyed s c i b ∙ ap (λ (o : Option Outcome). (o, i)) (k c.id (named b)))))
            (keyed h (named b) (build_from-Paired s rs k items i))
    ]
  ]

  -- `BuildToolInvocations` makes one invocation for each call of the entries that says something, in
  -- the order of the entries. A call with an identifier gets the outcome of the first result of any
  -- entry with that identifier, and no outcome where there is none; the calls without one get the
  -- results without an identifier in turn, as long as there are any.
  pub build_tool_invocations-Paired :
      (entries : List ParsedEntry)
      → Paired
          (all_results entries)
          (unkeyed_results (all_results entries))
          (calls_of entries)
          (build_tool_invocations engine submatch to_lower vars project_key machine_id entries)
  unfolding build_tool_invocations get
  build_tool_invocations-Paired entries =
      let start : Results = record { by_id = []; unkeyed = [] } in
      let rs = all_results entries in
      let items = calls_of entries in
      subst (λ s. Paired rs (unkeyed_results rs) items (building s items 0))
        (sym (collect-all_results start entries))
        (subst (λ us. Paired rs us items (building (add_results start rs) items 0))
          (unkeyed-add_results start rs)
          (build_from-Paired (add_results start rs) rs (λ id n. get-add_results start rs id n) items
            0))
