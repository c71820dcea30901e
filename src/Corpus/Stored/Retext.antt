-- ===== src/Corpus/Stored/Retext.antt =====
-- Entries with other texts in the place of the tools' output, and what the pairing of
-- internal/corpus/clusters.go makes of them.
use aha.Prelude.{
  ℕ, zero, suc, Bool, true, false, not, List, [], ◌∷◌, ◌++◌, Option, none, some, map, length, ltb,
  get_elem?, if◌then◌else◌, ◌≡◌, refl, sym, ap, ◌∙◌, arith,
}
use aha.Text.{Bytes, text_eq}
use aha.Text.Dict.{Dict, get, put, delete, has}
use aha.Corpus.Parsed.{ParsedEntry, ParsedToolCall, ParsedToolResult}
use aha.Corpus.Pairing.{
  Outcome, outcome_of, Results, add_result, add_results, collect, Item, calls_of, calls_of_entry,
  is_legacy_call, legacy_call, outcome_at, is_empty,
}
use aha.Corpus.Stored.{is_present, accepted}

module _ (f : Bytes → Bytes) where
  -- Another text in the place of each tool's output.
  abbrev pub retext_result : ParsedToolResult → ParsedToolResult
  retext_result r = record r { outcome_text = f r.outcome_text }

  abbrev pub retext : ParsedEntry → ParsedEntry
  retext e = record e { tool_results = map retext_result e.tool_results }

  abbrev pub retext_outcome : Outcome → Outcome
  retext_outcome o = record o { text = f o.text }

  abbrev pub retext_option : Option Outcome → Option Outcome
  retext_option none = none
  retext_option (some o) = some (retext_outcome o)

  abbrev pub retext_dict : Dict Outcome → Dict Outcome
  retext_dict [] = []
  retext_dict ((k, o) ∷ d) = (k, retext_outcome o) ∷ retext_dict d

  abbrev pub retext_results : Results → Results
  retext_results s = record { by_id = retext_dict s.by_id; unkeyed = map retext_outcome s.unkeyed }

  abbrev pub retext_item : Item → Item
  retext_item (e, c) = (retext e, c)

  get-retext : (d : Dict Outcome) (k : Bytes) → get (retext_dict d) k ≡ retext_option (get d k)
  unfolding get
  get-retext [] k = refl
  get-retext ((j, o) ∷ d) k = ground (arith, get-retext d k)

  has-retext : (d : Dict Outcome) (k : Bytes) → has (retext_dict d) k ≡ has d k
  unfolding has
  has-retext [] k = refl
  has-retext ((j, o) ∷ d) k = ground (arith, has-retext d k)

  delete-retext :
      (d : Dict Outcome) (k : Bytes) → delete (retext_dict d) k ≡ retext_dict (delete d k)
  unfolding delete
  delete-retext [] k = refl
  delete-retext ((j, o) ∷ d) k = ground (arith, delete-retext d k)

  map-append :
      (xs ys : List Outcome)
      → map retext_outcome (xs ++ ys) ≡ map retext_outcome xs ++ map retext_outcome ys
  map-append [] ys = refl
  map-append (x ∷ xs) ys = ap (λ l. retext_outcome x ∷ l) (map-append xs ys)

  length-retext : (xs : List Outcome) → length (map retext_outcome xs) ≡ length xs
  length-retext [] = refl
  length-retext (x ∷ xs) = ap suc (length-retext xs)

  get_elem?-retext :
      (xs : List Outcome) (i : ℕ)
      → get_elem? (map retext_outcome xs) i ≡ retext_option (get_elem? xs i)
  get_elem?-retext [] i = refl
  get_elem?-retext (x ∷ xs) zero = refl
  get_elem?-retext (x ∷ xs) (suc i) = get_elem?-retext xs i

  add_result-retext :
      (s : Results) (r : ParsedToolResult)
      → add_result (retext_results s) (retext_result r) ≡ retext_results (add_result s r)
  unfolding add_result put
  add_result-retext s r =
      chosen (text_eq r.for_id []) (has s.by_id r.for_id) (has (retext_dict s.by_id) r.for_id)
        (has-retext s.by_id r.for_id)
    where
      left : Bool → Bool → Results
      left b c =
          if b
          then record (retext_results s) {
            unkeyed = map retext_outcome s.unkeyed ++ retext_outcome (outcome_of r) ∷ [];
          }
          else if c
          then retext_results s
          else record (retext_results s) {
            by_id =
                (r.for_id, retext_outcome (outcome_of r)) ∷ delete (retext_dict s.by_id) r.for_id;
          }

      right : Bool → Bool → Results
      right b c =
          if b
          then record s { unkeyed = s.unkeyed ++ outcome_of r ∷ [] }
          else if c
          then s
          else record s { by_id = (r.for_id, outcome_of r) ∷ delete s.by_id r.for_id }

      chosen : (b c d : Bool) → d ≡ c → left b d ≡ retext_results (right b c)
      chosen true c d e =
          ap (λ u. record { by_id = retext_dict s.by_id; unkeyed = u })
            (sym (map-append s.unkeyed (outcome_of r ∷ [])))
      chosen false true true e = refl
      chosen false false false e =
          ap
            (λ u. record {
              by_id = (r.for_id, retext_outcome (outcome_of r)) ∷ u;
              unkeyed = map retext_outcome s.unkeyed;
            })
            (delete-retext s.by_id r.for_id)
      chosen false true false e = cc
      chosen false false true e = cc

  add_results-retext :
      (s : Results) (rs : List ParsedToolResult)
      → add_results (retext_results s) (map retext_result rs) ≡ retext_results (add_results s rs)
  unfolding add_results
  add_results-retext s [] = refl
  add_results-retext s (r ∷ rs) =
      ap (λ t. add_results t (map retext_result rs)) (add_result-retext s r)
      ∙ add_results-retext (add_result s r) rs

  pub collect-retext :
      (s : Results) (es : List ParsedEntry)
      → collect (retext_results s) (map retext es) ≡ retext_results (collect s es)
  unfolding collect
  collect-retext s [] = refl
  collect-retext s (e ∷ es) =
      ap (λ t. collect t (map retext es)) (add_results-retext s e.tool_results)
      ∙ collect-retext (add_results s e.tool_results) es

  is_empty-map : (rs : List ParsedToolResult) → is_empty (map retext_result rs) ≡ is_empty rs
  is_empty-map [] = refl
  is_empty-map (r ∷ rs) = refl

  is_legacy_call-retext : (e : ParsedEntry) → is_legacy_call (retext e) ≡ is_legacy_call e
  unfolding is_legacy_call
  is_legacy_call-retext e = ground (arith, is_empty-map e.tool_results)

  items-append :
      (xs ys : List Item) → map retext_item (xs ++ ys) ≡ map retext_item xs ++ map retext_item ys
  items-append [] ys = refl
  items-append (x ∷ xs) ys = ap (λ l. retext_item x ∷ l) (items-append xs ys)

  items-map :
      (e : ParsedEntry) (cs : List ParsedToolCall)
      → map (λ c. (retext e, c)) cs ≡ map retext_item (map (λ c. (e, c)) cs)
  items-map e [] = refl
  items-map e (c ∷ cs) = ap (λ l. (retext e, c) ∷ l) (items-map e cs)

  calls_of_entry-retext :
      (e : ParsedEntry) → calls_of_entry (retext e) ≡ map retext_item (calls_of_entry e)
  unfolding calls_of_entry
  calls_of_entry-retext e =
      chosen (is_legacy_call (retext e)) (is_legacy_call e) (is_legacy_call-retext e)
    where
      chosen :
          (b c : Bool)
          → b ≡ c
          → (if b then (retext e, legacy_call e) ∷ [] else map (λ k. (retext e, k)) e.tool_calls)
            ≡ map retext_item
                (if c then (e, legacy_call e) ∷ [] else map (λ k. (e, k)) e.tool_calls)
      chosen true true h = refl
      chosen false false h = items-map e e.tool_calls
      chosen true false h = cc
      chosen false true h = cc

  pub calls_of-retext :
      (es : List ParsedEntry) → calls_of (map retext es) ≡ map retext_item (calls_of es)
  unfolding calls_of
  calls_of-retext [] = refl
  calls_of-retext (e ∷ es) =
      ap (λ l. l ++ calls_of (map retext es)) (calls_of_entry-retext e)
      ∙ ap (λ l. map retext_item (calls_of_entry e) ++ l) (calls_of-retext es)
      ∙ sym (items-append (calls_of_entry e) (calls_of es))

  pub outcome_at-retext :
      (s : Results) (c : ParsedToolCall) (i : ℕ)
      → outcome_at (retext_results s) c i
        ≡ (retext_option (outcome_at s c i).0, (outcome_at s c i).1)
  unfolding outcome_at
  outcome_at-retext s c i =
      chosen (text_eq c.id []) (ltb i (length s.unkeyed))
        (ltb i (length (map retext_outcome s.unkeyed))) (ap (ltb i) (length-retext s.unkeyed))
    where
      before : Bool → Bool → Option Outcome × ℕ
      before b d =
          if not b
          then (get s.by_id c.id, i)
          else if d
          then (get_elem? s.unkeyed i, suc i)
          else (none, i)

      after : Bool → Bool → Option Outcome × ℕ
      after b d =
          if not b
          then (get (retext_dict s.by_id) c.id, i)
          else if d
          then (get_elem? (map retext_outcome s.unkeyed) i, suc i)
          else (none, i)

      chosen : (b d e : Bool) → e ≡ d → after b e ≡ (retext_option (before b d).0, (before b d).1)
      chosen false d e h = ap (λ o. (o, i)) (get-retext s.by_id c.id)
      chosen true true true h = ap (λ o. (o, suc i)) (get_elem?-retext s.unkeyed i)
      chosen true false false h = refl
      chosen true true false h = cc
      chosen true false true h = cc

  pub accepted-retext :
      (hash_of : Bytes → Bytes) (present : Dict Bytes) (es : List ParsedEntry)
      → accepted hash_of present (map retext es) ≡ map retext (accepted hash_of present es)
  unfolding accepted
  accepted-retext hash_of present [] = refl
  accepted-retext hash_of present (e ∷ es) =
      chosen (is_present present e.entry_id (hash_of e.raw_json))
        (accepted-retext hash_of present es)
    where
      chosen :
          (b : Bool)
          → accepted hash_of present (map retext es) ≡ map retext (accepted hash_of present es)
          → (if b
              then retext e ∷ accepted hash_of present (map retext es)
              else accepted hash_of present (map retext es))
            ≡ map retext
                (if b then e ∷ accepted hash_of present es else accepted hash_of present es)
      chosen true h = ap (λ l. retext e ∷ l) h
      chosen false h = h
