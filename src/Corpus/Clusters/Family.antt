-- ===== src/Corpus/Clusters/Family.antt =====
-- What a command family shows of the command, and how long a signature is.
use aha.Prelude.{
  ℕ, Bool, true, false, ◌≤◌, ltb, List, [], ◌∷◌, ◌++◌, Option, length, take, length-take, All,
  if◌then◌else◌, ◌≡◌, arith,
}
use aha.Text.{Bytes, codes, has_prefix, contains_any}
use aha.Text.Space.{trim_space, fields}
use aha.Text.Space.Fields.{IsWord}
use aha.Redact.{Engine}
use aha.Corpus.Clusters.{
  first_statement, Vars, join_words, is_assignment, skip_assignments, replace_details,
  normalize_error_signature, ends_words,
}

length-capped : (m : ℕ) (s : Bytes) → length (if ltb m (length s) then take m s else s) ≤ m
length-capped m s = ground (arith, length-take m s)

length-or_blank : (b : Bool) (n : Bytes) → length n ≤ 200 → length (if b then [] else n) ≤ 200
length-or_blank true n h = omega arith
length-or_blank false n h = h

-- The words before the program, which assign variables, and those from it on.
pub record Skipped (fs : List Bytes) : Type 0 where
  pub before : List Bytes
  pub program : Bytes
  pub rest : List Bytes
  pub whole : fs ≡ before ++ program ∷ rest
  pub left : skip_assignments fs ≡ program ∷ rest
  pub assignments : All (λ w. is_assignment w ≡ true) before
  pub no_assignment : is_assignment program ≡ false

module _ {Re : Type 0} (engine : Engine Re) (submatch : Re → Bytes → Option Bytes)
    (to_lower : Bytes → Bytes) (vars : Vars Re) where
  abbrev ends : Bytes → Bool
  ends = ends_words engine submatch to_lower vars

  -- The error signature of a text is at most 200 bytes long.
  pub length-normalize_error_signature :
      (s : Bytes) → length (normalize_error_signature engine submatch to_lower vars s) ≤ 200
  unfolding normalize_error_signature
  length-normalize_error_signature s =
      length-or_blank _ _
        (length-capped 200 (replace_details engine submatch to_lower vars (trim_space s)))

  -- The words of the command's first statement.
  abbrev pub words_of : Bytes → List Bytes
  words_of command = fields (first_statement engine submatch to_lower vars (trim_space command))

  pub record IsPrivate (command family : Bytes) : Type 0 where
    pub before : List Bytes
    pub program : Bytes
    pub later : List Bytes
    pub after : List Bytes
    pub is_joined : family ≡ join_words program later
    pub in_command : words_of command ≡ before ++ program ∷ (later ++ after)
    pub assignments : All (λ w. is_assignment w ≡ true) before
    pub no_assignment : is_assignment program ≡ false
    pub few : length later ≤ 2
    pub plain :
        All (λ w. (has_prefix w (codes "-") ≡ false) × (contains_any w (codes "/=$") ≡ false)) later
    pub words : All IsWord (words_of command)
