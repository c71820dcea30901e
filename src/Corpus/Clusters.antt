-- ===== src/Corpus/Clusters.antt =====
-- internal/corpus/clusters.go: the error signature and the command family of a tool call. Package
-- regexp and `strings.ToLower` are parameters.
pub mod Family
use aha.Prelude.{
  ℕ, zero, suc, Bool, ◌||◌, ◌&&◌, not, List, [], ◌∷◌, ◌++◌, Option, none, some, length, take, ltb,
  if◌then◌else◌, Result, ok, err, ◌>>=◌,
}
use aha.Text.{Bytes, codes, text_eq, has_prefix, contains_byte, contains_any, contains_text}
use aha.Text.Space.{trim_space, fields}
use aha.Redact.{Engine, Pattern, RedactError, compile_panic, new_default, apply}

-- The variables of the package that are made when the program starts.
pub record Vars (Re : Type 0) : Type 0 where
  pub hex_long : Re
  pub uuid : Re
  pub number : Re
  pub quoted : Re
  pub path : Re
  pub space_run : Re
  pub url : Re
  pub arg_token : Re
  pub leading_cd : Re
  pub redactor : List (Pattern Re)

-- The text before the first byte that stands in the set, as with `strings.IndexAny`.
before_any : Bytes → Bytes → Bytes
unfolding contains_byte
before_any set [] = []
before_any set (c ∷ s) = let rest = before_any set s in if contains_byte set c then [] else c ∷ rest

-- The text before the first occurrence of another, as with `strings.Index`.
before_text : Bytes → Bytes → Bytes
unfolding has_prefix
before_text p [] = []
before_text p (c ∷ s) = let rest = before_text p s in if has_prefix (c ∷ s) p then [] else c ∷ rest

abbrev pub join_words : Bytes → List Bytes → Bytes
join_words word [] = word
join_words word (next ∷ later) = word ++ codes " " ++ join_words next later

-- `name=value` in front of a command.
abbrev pub is_assignment : Bytes → Bool
is_assignment f = contains_text f (codes "=") && not (has_prefix f (codes "="))

unfoldable pub skip_assignments : List Bytes → List Bytes
skip_assignments [] = []
skip_assignments (f ∷ fs) =
    let rest = skip_assignments fs in if is_assignment f then rest else f ∷ fs

module _ {Re : Type 0} (engine : Engine Re) where
  must_compile : Bytes → Result RedactError Re
  must_compile source = elim (engine.compile source) [ none ↦ err compile_panic | some r ↦ ok r ]

  unfoldable pub new_vars : Result RedactError (Vars Re)
  unfolding must_compile
  new_vars = do
    hex_long ← must_compile (codes "\\b[0-9a-f]{7,}\\b")
    uuid ←
        must_compile (
          codes "\\b[0-9a-fA-F]{8}-[0-9a-fA-F]{4}-[0-9a-fA-F]{4}-[0-9a-fA-F]{4}-[0-9a-fA-F]{12}\\b")
    number ← must_compile (codes "\\b\\d+\\b")
    quoted ← must_compile (codes "'[^']*'|\"[^\"]*\"")
    path ← must_compile (codes "(/[^\\s'\"]+)+")
    space_run ← must_compile (codes "\\s+")
    url ← must_compile (codes "https?://[^\\s'\"]+")
    arg_token ← must_compile (codes "^-")
    leading_cd ←
        must_compile (codes "^\\s*(?:[A-Za-z_][A-Za-z0-9_]*=\\S+\\s+)*cd\\s+\\S+\\s+&&\\s*(.+)$")
    patterns ← new_default engine
    ok (record {
      hex_long = hex_long;
      uuid = uuid;
      number = number;
      quoted = quoted;
      path = path;
      space_run = space_run;
      url = url;
      arg_token = arg_token;
      leading_cd = leading_cd;
      redactor = patterns;
    })

  -- `submatch` is the first group of `FindStringSubmatch`, where there is a match.
  module _ (submatch : Re → Bytes → Option Bytes) (to_lower : Bytes → Bytes) (vars : Vars Re) where
    -- The replacements of `normalizeErrorSignature`, on a text that is not blank.
    replace_details : Bytes → Bytes
    replace_details s =
        let s1 = to_lower (apply engine vars.redactor s).0 in
        let s2 = engine.replace_all vars.url s1 (codes "<url>") in
        let s3 = engine.replace_all vars.uuid s2 (codes "<uuid>") in
        let s4 = engine.replace_all vars.path s3 (codes "<path>") in
        let s5 = engine.replace_all vars.quoted s4 (codes "<str>") in
        let s6 = engine.replace_all vars.hex_long s5 (codes "<hex>") in
        let s7 = engine.replace_all vars.number s6 (codes "<n>") in
        trim_space (engine.replace_all vars.space_run s7 (codes " "))

    unfoldable pub normalize_error_signature : Bytes → Bytes
    unfolding replace_details
    normalize_error_signature s =
        let trimmed = trim_space s in
        let n = replace_details trimmed in
        if text_eq trimmed [] then [] else if ltb 200 (length n) then take 200 n else n

    -- What ends the words of a command: an option, or an operand.
    unfoldable pub ends_words : Bytes → Bool
    ends_words f =
        engine.matches vars.arg_token f
        || contains_any f (codes "/=$")
        || contains_text f (codes "://")

    -- At most so many words more.
    unfoldable pub more_words : ℕ → List Bytes → List Bytes
    unfolding ends_words
    more_words zero fs = []
    more_words (suc n) [] = []
    more_words (suc n) (f ∷ fs) =
        let rest = more_words n fs in if ends_words f then [] else f ∷ rest

    -- The program and its subcommands, or the name of the tool where no word is left.
    family_of_words : Bytes → List Bytes → Bytes
    unfolding more_words
    family_of_words tool_name [] = trim_space tool_name
    family_of_words tool_name (f ∷ fs) = join_words f (more_words 2 fs)

    -- The statement whose words count.
    pub first_statement : Bytes → Bytes
    unfolding before_any before_text
    first_statement cmd =
        let redacted = (apply engine vars.redactor cmd).0 in
        let shown = if text_eq redacted [] then cmd else redacted in
        let inner : Bytes = elim (submatch vars.leading_cd shown) [ none ↦ shown | some m ↦ m ] in
        before_text (codes " & ") (before_any (codes "\n|;") inner)

    unfoldable pub command_words : Bytes → List Bytes
    unfolding first_statement skip_assignments
    command_words cmd = skip_assignments (fields (first_statement cmd))

    unfoldable pub command_family : Bytes → Bytes → Bytes
    unfolding family_of_words command_words
    command_family tool_name command =
        let cmd = trim_space command in
        if text_eq cmd []
        then trim_space tool_name
        else family_of_words tool_name (command_words cmd)
