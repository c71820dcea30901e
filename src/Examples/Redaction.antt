-- ===== src/Examples/Redaction.antt =====
-- Redaction with an engine whose expressions are plain texts.
use aha.Redact.{apply_from}
use aha.Redact.{check_extra}
use aha.Redact.{add_extras}
use aha.Prelude.{true, List, [], ◌∷◌, ◌++◌, some, ◌≡◌, refl, if◌then◌else◌, ok, map, ◌↔◌, All}
use aha.Text.{Bytes, codes, text_eq, contains_text, contains}
use aha.Redact.{
  Engine, Pattern, ExtraPattern, apply, builtin_sources, new_default, new_with_extras, names,
}
use aha.Redact.Extras.{IsSafe, Matched, distinct, new_with_extras_sound}
use aha.Redact.Hits.{apply_silent_iff}

abbrev pub plain_engine : Engine Bytes
plain_engine = record {
  compile = λ source. some source;
  matches = λ r t. contains_text t r;
  count = λ r t. if contains_text t r then 1 else 0;
  replace_all = λ r t m. if contains_text t r then m else t;
}

abbrev an_extra : ExtraPattern
an_extra = record { extra_name = codes "project"; regex = codes "zebra" }

abbrev builtin_patterns : List (Bytes × Bytes) → List (Pattern Bytes)
builtin_patterns = map (λ s. record { name = s.0; re = s.1 })

abbrev with_extra : List (Pattern Bytes)
with_extra =
    builtin_patterns builtin_sources ++ record { name = codes "project"; re = codes "zebra" } ∷ []

new_with_extras_sound_example :
    (builtin : List (Pattern Bytes)) × (added : List (Pattern Bytes)) × (new_default plain_engine
      ≡ ok builtin)
    × (with_extra ≡ builtin ++ added)
    × (names plain_engine builtin ≡ map (λ s. s.0) builtin_sources)
    × Matched (IsSafe plain_engine) (an_extra ∷ []) added
    × (distinct (names plain_engine with_extra) ≡ true)
unfolding new_with_extras new_default add_extras check_extra text_eq contains contains_text
new_with_extras_sound_example = new_with_extras_sound plain_engine (an_extra ∷ []) refl

apply_silent_iff_example :
    ((apply plain_engine with_extra (codes "a cow")).1 ≡ []
      ↔ All (λ p. plain_engine.count p.re (codes "a cow") ≡ 0) with_extra)
    × ((apply plain_engine with_extra (codes "a cow")).1 ≡ []
        → (apply plain_engine with_extra (codes "a cow")).0 ≡ codes "a cow")
apply_silent_iff_example = apply_silent_iff plain_engine with_extra (codes "a cow")

-- The second of these extras leaves a marker that the first one matches, and both are accepted.
abbrev crossed_extras : List ExtraPattern
crossed_extras =
    record { extra_name = codes "alpha"; regex = codes "second" }
    ∷ record { extra_name = codes "second"; regex = codes "zebra" }
    ∷ []

abbrev crossed : List (Pattern Bytes)
crossed =
    builtin_patterns builtin_sources
    ++ record { name = codes "alpha"; re = codes "second" }
      ∷ record { name = codes "second"; re = codes "zebra" }
      ∷ []

crossed_accepted : new_with_extras plain_engine crossed_extras ≡ ok crossed
unfolding new_with_extras new_default add_extras check_extra text_eq contains contains_text
crossed_accepted = refl

-- Applied to its own output, such a redactor changes it.
apply_not_idempotent :
    ((apply plain_engine crossed (codes "a zebra")).0 ≡ codes "[REDACTED:second]")
    × ((apply plain_engine crossed (codes "[REDACTED:second]")).0 ≡ codes "[REDACTED:alpha]")
unfolding apply apply_from builtin_sources contains_text
apply_not_idempotent = (refl, refl)
