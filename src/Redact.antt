-- ===== src/Redact.antt =====
-- internal/redact/redact.go: the ordered patterns that redact texts. Package regexp is a parameter.
pub mod Extras
pub mod Hits
use aha.Prelude.{
  ℕ, suc, ◌+◌, Bool, ◌||◌, List, [], ◌∷◌, ◌++◌, Option, none, some, map, if◌then◌else◌, ◌==◌,
  Result, ok, err, ◌>>=◌, ◌>>◌, fail_if,
}
use aha.Text.{Bytes, codes, text_eq, contains}
use aha.Text.Dict.{Dict, get, put, keys}
use aha.Text.Order.{text_ltb}
use aha.Prelude.Sort.{sort_stable}

-- What is used of package regexp: `Compile`, `MatchString`, the number of matches that
-- `FindAllStringIndex` gives, and `ReplaceAllString`.
pub record Engine (Re : Type 0) : Type 0 where
  pub compile : Bytes → Option Re
  pub matches : Re → Bytes → Bool
  pub count : Re → Bytes → ℕ
  pub replace_all : Re → Bytes → Bytes → Bytes

pub record Pattern (Re : Type 0) : Type 0 where
  pub name : Bytes
  pub re : Re

pub record ExtraPattern : Type 0 where
  pub extra_name : Bytes
  pub regex : Bytes

abbrev pub Hits : Type 0
Hits = Dict ℕ

-- The errors of `NewWithExtras`, and the panic of `regexp.MustCompile`.
pub data RedactError : Type 0 where
  compile_panic : RedactError
  empty_name : ℕ → RedactError
  name_collides does_not_compile matches_empty matches_marker : Bytes → RedactError

unfoldable pub builtin_sources : List (Bytes × Bytes)
builtin_sources =
    (codes "anthropic_key", codes "\\bsk-ant-[A-Za-z0-9_\\-]{20,}\\b")
    ∷ (
      codes "private_key_block",
      codes "(?s)-----BEGIN [A-Z ]*PRIVATE KEY-----.*?-----END [A-Z ]*PRIVATE KEY-----",
    )
    ∷ (codes "github_fine_grained_token", codes "\\bgithub_pat_[A-Za-z0-9_]{20,}\\b")
    ∷ (codes "github_token", codes "\\bgh[pousr]_[A-Za-z0-9_]{20,}\\b")
    ∷ (codes "slack_token", codes "\\bxox[baprs]-[A-Za-z0-9-]{10,}\\b")
    ∷ (codes "npm_token", codes "\\bnpm_[A-Za-z0-9]{20,}\\b")
    ∷ (codes "pypi_token", codes "\\bpypi-[A-Za-z0-9_\\-]{20,}\\b")
    ∷ (codes "aws_access_key", codes "\\bAKIA[0-9A-Z]{16}\\b")
    ∷ (codes "google_api_key", codes "\\bAIza[0-9A-Za-z\\-_]{35}\\b")
    ∷ (codes "stripe_key", codes "\\bsk_(?:live|test)_[A-Za-z0-9]{24,}\\b")
    ∷ (
      codes "gcp_service_account",
      codes "\\b[A-Za-z0-9_\\-]{6,}@[a-z0-9\\-]+\\.iam\\.gserviceaccount\\.com\\b",
    )
    ∷ (
      codes "cloudflare_token",
      codes
          "(?i)\\b(?:CF_API_TOKEN|CLOUDFLARE(?:_API)?_TOKEN)\\s*[:=]\\s*(?:\"[A-Za-z0-9_\\-]{20,}\"|'[A-Za-z0-9_\\-]{20,}'|[A-Za-z0-9_\\-]{20,})",
    )
    ∷ (
      codes "jwt_token",
      codes "\\beyJ[A-Za-z0-9_\\-]{10,}\\.[A-Za-z0-9_\\-]{10,}\\.[A-Za-z0-9_\\-]{10,}\\b",
    )
    ∷ (
      codes "authorization_bearer",
      codes "(?i)\\bAuthorization\\s*:\\s*Bearer\\s+[A-Za-z0-9._~+/=\\-]{8,}",
    )
    ∷ (codes "url_credentials", codes "\\b[a-z][a-z0-9+.\\-]*://[^/\\s:@]+:[^/\\s@]+@")
    ∷ (
      codes "assignment_secret",
      codes
          "(?i)\\b(?:[A-Z0-9_]*(?:PASSWORD|SECRET|TOKEN|API[_-]?KEY|ACCESS[_-]?KEY)[A-Z0-9_]*|password|secret|token|api[_-]?key)\\s*[:=]\\s*(?:\"[^\"\\n]{8,}\"|'[^'\\n]{8,}'|[^\\s'\"]{8,})",
    )
    ∷ (codes "openai_key", codes "\\bsk-[A-Za-z0-9_\\-]{20,}\\b")
    ∷ []

-- `"[REDACTED:"+name+"]"`
unfoldable pub marker_of : Bytes → Bytes
marker_of n = codes "[REDACTED:" ++ n ++ codes "]"

module _ {Re : Type 0} (engine : Engine Re) where
  abbrev pub compiled : Bytes → Option Re → Result RedactError (Pattern Re)
  compiled n none = err compile_panic
  compiled n (some r) = ok (record { name = n; re = r })

  abbrev pub compile_all : List (Bytes × Bytes) → Result RedactError (List (Pattern Re))
  compile_all [] = ok []
  compile_all ((n, source) ∷ rest) = do
    p ← compiled n (engine.compile source)
    ps ← compile_all rest
    ok (p ∷ ps)

  unfoldable pub new_default : Result RedactError (List (Pattern Re))
  unfolding builtin_sources
  new_default = compile_all builtin_sources

  abbrev pub compile_extra : ExtraPattern → Result RedactError Re
  compile_extra e = elim (engine.compile e.regex) [
    | none ↦ err (does_not_compile e.extra_name)
    | some r ↦ ok r
  ]

  -- The body of the loop of `NewWithExtras`: the compiled extra, at the place `i`, where `seen` holds
  -- the names before it.
  unfoldable pub check_extra : List Bytes → ℕ → ExtraPattern → Result RedactError (Pattern Re)
  unfolding marker_of
  check_extra seen i e = do
    fail_if (text_eq e.extra_name []) (empty_name i)
    fail_if (contains seen e.extra_name) (name_collides e.extra_name)
    r ← compile_extra e
    fail_if (engine.matches r []) (matches_empty e.extra_name)
    fail_if
        (engine.matches r (marker_of e.extra_name)
          || engine.matches r (marker_of (codes "openai_key")))
        (matches_marker e.extra_name)
    ok (record { name = e.extra_name; re = r })

  unfoldable pub add_extras :
      List Bytes → ℕ → List ExtraPattern → Result RedactError (List (Pattern Re))
  add_extras seen i [] = ok []
  add_extras seen i (e ∷ es) = do
    p ← check_extra seen i e
    ps ← add_extras (e.extra_name ∷ seen) (suc i) es
    ok (p ∷ ps)

  abbrev pub names : List (Pattern Re) → List Bytes
  names = map (λ p. p.name)

  unfoldable pub new_with_extras : List ExtraPattern → Result RedactError (List (Pattern Re))
  new_with_extras extras = do
    builtin ← new_default
    ps ← add_extras (names builtin) 0 extras
    ok (builtin ++ ps)

  -- `hits[name] += n`
  abbrev pub add_hits : Hits → Bytes → ℕ → Hits
  add_hits h name n = elim (get h name) [ none ↦ put h name n | some m ↦ put h name (m + n) ]

  -- The loop of `Apply`.
  unfoldable pub apply_from : List (Pattern Re) → Bytes → Hits → Bytes × Hits
  unfolding marker_of
  apply_from [] text hits = (text, hits)
  apply_from (p ∷ ps) text hits =
      let n = engine.count p.re text in
      let text' = if n == 0 then text else engine.replace_all p.re text (marker_of p.name) in
      let hits' = if n == 0 then hits else add_hits hits p.name n in apply_from ps text' hits'

  unfoldable pub apply : List (Pattern Re) → Bytes → Bytes × Hits
  apply ps text = apply_from ps text []

  unfoldable pub pattern_names : List (Pattern Re) → List Bytes
  pattern_names ps = names ps

unfoldable pub sorted_hit_names : Hits → List Bytes
sorted_hit_names h = sort_stable text_ltb (keys h)
