-- ===== src/Redact/Hits.antt =====
-- What `Apply` reports: the hits of internal/redact/redact.go.
use aha.Prelude.{ℕ, ◌+◌, List, [], ◌∷◌, Option, none, some, ◌≡◌, ◌≢◌, ◌↔◌, refl, All, arith, ap}
use aha.Text.{Bytes}
use aha.Text.Dict.{get, put}
use aha.Redact.{Engine, Pattern, Hits, marker_of, add_hits, apply_from, apply}

module _ {Re : Type 0} (engine : Engine Re) where
  abbrev Clean : Bytes → List (Pattern Re) → Type 0
  Clean text ps = All (λ p. engine.count p.re text ≡ 0) ps

  apply_from-Clean :
      (ps : List (Pattern Re)) (text : Bytes) (hits : Hits)
      → Clean text ps
      → apply_from engine ps text hits ≡ (text, hits)
  unfolding apply_from
  apply_from-Clean [] text hits c = refl
  apply_from-Clean (p ∷ ps) text hits (h, c) = ground (arith, apply_from-Clean ps text hits c)

  add_hits_some : (h : Hits) (n : Bytes) (m : ℕ) → add_hits engine h n m ≢ []
  unfolding put
  add_hits_some h n m = cases (get h n)
    where
      cases : (o : Option ℕ) → (elim o [ none ↦ put h n m | some k ↦ put h n (k + m) ]) ≢ []
      cases none q = cc
      cases (some k) q = cc

  apply_from-nonempty :
      (ps : List (Pattern Re)) (text : Bytes) (hits : Hits)
      → hits ≢ []
      → (apply_from engine ps text hits).1 ≢ []
  unfolding apply_from
  apply_from-nonempty [] text hits h = h
  apply_from-nonempty (p ∷ ps) text hits h = ground (
    arith,
    add_hits_some hits p.name (engine.count p.re text),
    apply_from-nonempty ps text hits h,
    apply_from-nonempty ps (engine.replace_all p.re text (marker_of p.name))
        (add_hits engine hits p.name (engine.count p.re text)),
  )

  apply_from-silent :
      (ps : List (Pattern Re)) (text : Bytes)
      → (apply_from engine ps text []).1 ≡ []
      → Clean text ps
  unfolding apply_from
  apply_from-silent [] text h = tt
  apply_from-silent (p ∷ ps) text h = ground (
    arith,
    add_hits_some [] p.name (engine.count p.re text),
    apply_from-silent ps text,
    apply_from-nonempty ps (engine.replace_all p.re text (marker_of p.name))
        (add_hits engine [] p.name (engine.count p.re text)),
  )

  -- `Apply` reports no hits exactly when no pattern finds a match in the text, and then it returns the
  -- text unchanged.
  pub apply_silent_iff :
      (ps : List (Pattern Re)) (text : Bytes)
      → ((apply engine ps text).1 ≡ [] ↔ All (λ p. engine.count p.re text ≡ 0) ps)
        × ((apply engine ps text).1 ≡ [] → (apply engine ps text).0 ≡ text)
  unfolding apply
  apply_silent_iff ps text =
      let unchanged : Clean text ps → apply_from engine ps text [] ≡ (text, []) =
        λ c. apply_from-Clean ps text [] c in
      (
        (apply_from-silent ps text, λ c. ap (λ r. r.1) (unchanged c)),
        λ h. ap (λ r. r.0) (unchanged (apply_from-silent ps text h)),
      )
