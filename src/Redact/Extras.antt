-- ===== src/Redact/Extras.antt =====
-- The patterns that `NewWithExtras` of internal/redact/redact.go accepts.
use aha.Prelude.{
  ℕ, suc, Bool, true, false, ◌&&◌, ◌||◌, not, List, [], ◌∷◌, ◌++◌, Option, none, some, ◌≡◌, ◌≢◌,
  refl, map, All, if◌then◌else◌, arith, ok, err, >>=-eq-ok, fail_if-eq-ok, ok_inj, ap, sym, ◌∙◌,
  subst,
}
use aha.Text.{Bytes, codes, text_eq, text_eq_iff, contains}
use aha.Redact.{
  Engine, Pattern, ExtraPattern, does_not_compile, builtin_sources, marker_of, compile_all,
  new_default, check_extra, compiled, compile_extra, add_extras, names, new_with_extras,
}

abbrev pub distinct : List Bytes → Bool
distinct [] = true
distinct (n ∷ ns) = not (contains ns n) && distinct ns

All-tail_contains :
    (m : Bytes) (ms ns : List Bytes)
    → All (λ n. contains (m ∷ ms) n ≡ false) ns
    → All (λ n. contains ms n ≡ false) ns
unfolding contains
All-tail_contains m ms [] a = tt
All-tail_contains m ms (n ∷ ns) (h, a) = (ground arith, All-tail_contains m ms ns a)

-- None of the later names is the first one of those before.
contains-head :
    (m : Bytes) (ms ns : List Bytes)
    → All (λ n. contains (m ∷ ms) n ≡ false) ns
    → contains ns m ≡ false
unfolding contains
contains-head m ms [] a = refl
contains-head m ms (n ∷ ns) (h, a) =
    ground (arith, contains-head m ms ns a, text_eq_iff m n, text_eq_iff n m)

contains-append :
    (ms ns : List Bytes) (t : Bytes)
    → contains (ms ++ ns) t ≡ (if contains ms t then true else contains ns t)
unfolding contains
contains-append [] ns t = ground arith
contains-append (m ∷ ms) ns t = ground (arith, contains-append ms ns t)

distinct-append :
    (ms ns : List Bytes)
    → distinct ms ≡ true
    → distinct ns ≡ true
    → All (λ n. contains ms n ≡ false) ns
    → distinct (ms ++ ns) ≡ true
distinct-append [] ns h k a = k
distinct-append (m ∷ ms) ns h k a = ground (
  arith,
  contains-append ms ns m,
  contains-head m ms ns a,
  distinct-append ms ns,
  All-tail_contains m ms ns a,
)

builtin_distinct : distinct (map (λ s. s.0) builtin_sources) ≡ true
unfolding builtin_sources contains text_eq
builtin_distinct = refl

named : (n : Bytes) → text_eq n [] ≡ false → n ≢ []
named n h q = ground (arith, text_eq_iff n [])

neither : (a b : Bool) → (a || b) ≡ false → (a ≡ false) × (b ≡ false)
neither a b h = ground arith

-- The two lists have one length, and what stands at one place is related.
pub data Matched {E P : Type 0} (R : E → P → Type 0) : List E → List P → Type 0 where
  nil : Matched R [] []
  cons :
      {e : E} {p : P} {es : List E} {ps : List P}
      → R e p
      → Matched R es ps
      → Matched R (e ∷ es) (p ∷ ps)

module _ {Re : Type 0} (engine : Engine Re) where
  -- What an extra pattern has and must not match.
  pub record IsSafe (e : ExtraPattern) (p : Pattern Re) : Type 0 where
    pub has_name : p.name ≢ []
    pub same_name : p.name ≡ e.extra_name
    pub is_compiled : engine.compile e.regex ≡ some p.re
    pub not_empty : engine.matches p.re [] ≡ false
    pub not_own_marker : engine.matches p.re (marker_of p.name) ≡ false
    pub not_builtin_marker : engine.matches p.re (marker_of (codes "openai_key")) ≡ false

  compile_extra-ok :
      (n : Bytes) (o : Option Re) {r : Re}
      → (elim o [ none ↦ err (does_not_compile n) | some q ↦ ok q ]) ≡ ok r
      → o ≡ some r
  compile_extra-ok n none h = cc
  compile_extra-ok n (some q) h = ap some (ok_inj h)

  check_extra-IsSafe :
      (seen : List Bytes) (i : ℕ) (e : ExtraPattern) {p : Pattern Re}
      → check_extra engine seen i e ≡ ok p
      → IsSafe e p × (contains seen e.extra_name ≡ false)
  unfolding check_extra
  check_extra-IsSafe seen i e h =
      let (b1, h1) = fail_if-eq-ok (text_eq e.extra_name []) _ _ h in
      let (b2, h2) = fail_if-eq-ok (contains seen e.extra_name) _ _ h1 in
      let (r, c, h3) = >>=-eq-ok (compile_extra engine e) _ h2 in
      let (b4, h4) = fail_if-eq-ok (engine.matches r []) _ _ h3 in
      let own = engine.matches r (marker_of e.extra_name) in
      let builtin = engine.matches r (marker_of (codes "openai_key")) in
      let (b5, h5) = fail_if-eq-ok (own || builtin) _ _ h4 in
      (
        subst (IsSafe e) (ok_inj h5) (record {
          has_name = named e.extra_name b1;
          same_name = refl;
          is_compiled = compile_extra-ok e.extra_name (engine.compile e.regex) c;
          not_empty = b4;
          not_own_marker = (neither own builtin b5).0;
          not_builtin_marker = (neither own builtin b5).1;
        }),
        b2,
      )

  name-compiled :
      (n : Bytes) (o : Option Re) {p : Pattern Re} → compiled engine n o ≡ ok p → p.name ≡ n
  name-compiled n none h = cc
  name-compiled n (some r) h = ap (λ (q : Pattern Re). q.name) (sym (ok_inj h))

  cong2 : {a b : Bytes} {l m : List Bytes} → a ≡ b → l ≡ m → a ∷ l ≡ b ∷ m
  cong2 p q = cc (p, q)

  names-compile_all :
      (sources : List (Bytes × Bytes)) {ps : List (Pattern Re)}
      → compile_all engine sources ≡ ok ps
      → names engine ps ≡ map (λ s. s.0) sources
  names-compile_all [] h = ap (names engine) (sym (ok_inj h))
  names-compile_all ((n, s) ∷ rest) h =
      let (p, hp, h1) = >>=-eq-ok (compiled engine n (engine.compile s)) _ h in
      let (ps, hps, h2) = >>=-eq-ok (compile_all engine rest) _ h1 in
      ap (names engine) (sym (ok_inj h2))
      ∙ cong2 (name-compiled n (engine.compile s) hp) (names-compile_all rest hps)

  pub record Accepted (seen : List Bytes) (es : List ExtraPattern) (ps : List (Pattern Re))
      : Type 0 where
    pub matched : Matched IsSafe es ps
    pub are_distinct : distinct (names engine ps) ≡ true
    pub are_new : All (λ n. contains seen n ≡ false) (names engine ps)

  accept :
      (seen : List Bytes) (e : ExtraPattern) (es : List ExtraPattern) (p : Pattern Re)
      (ps : List (Pattern Re))
      → IsSafe e p
      → contains seen e.extra_name ≡ false
      → Accepted (e.extra_name ∷ seen) es ps
      → Accepted seen (e ∷ es) (p ∷ ps)
  accept seen e es p ps safe fresh rest =
      let same = safe.same_name in
      let ahead = contains-head e.extra_name seen (names engine ps) rest.are_new in
      record {
        matched = cons safe rest.matched;
        are_distinct = ground (
          arith,
          subst (λ n. contains (names engine ps) n ≡ false) (sym same) ahead,
          rest.are_distinct,
        );
        are_new = (
          subst (λ n. contains seen n ≡ false) (sym same) fresh,
          All-tail_contains e.extra_name seen (names engine ps) rest.are_new,
        );
      }

  add_extras-Accepted :
      (seen : List Bytes) (i : ℕ) (es : List ExtraPattern) {ps : List (Pattern Re)}
      → add_extras engine seen i es ≡ ok ps
      → Accepted seen es ps
  unfolding add_extras
  add_extras-Accepted seen i [] h =
      subst (Accepted seen []) (ok_inj h)
        (record { matched = nil; are_distinct = refl; are_new = tt })
  add_extras-Accepted seen i (e ∷ es) h =
      let (p, hp, h1) = >>=-eq-ok (check_extra engine seen i e) _ h in
      let (ps, hps, h2) = >>=-eq-ok (add_extras engine (e.extra_name ∷ seen) (suc i) es) _ h1 in
      let (safe, fresh) = check_extra-IsSafe seen i e hp in
      subst (Accepted seen (e ∷ es)) (ok_inj h2) (
        accept seen e es p ps safe fresh (add_extras-Accepted (e.extra_name ∷ seen) (suc i) es hps))

  names-append :
      (ps qs : List (Pattern Re)) → names engine (ps ++ qs) ≡ names engine ps ++ names engine qs
  names-append [] qs = refl
  names-append (p ∷ ps) qs = ap (λ l. p.name ∷ l) (names-append ps qs)

  -- When `NewWithExtras` returns a redactor, its patterns are the built-in ones in their order and
  -- then one for each extra in order; no two of them have one name; and each extra has a name that is
  -- not empty, is what its expression compiles to, and matches neither the empty text nor its own
  -- marker nor that of the last built-in pattern.
  pub new_with_extras_sound :
      (extras : List ExtraPattern) {all : List (Pattern Re)}
      → new_with_extras engine extras ≡ ok all
      → (builtin : List (Pattern Re)) × (added : List (Pattern Re)) × (new_default engine
          ≡ ok builtin)
        × (all ≡ builtin ++ added)
        × (names engine builtin ≡ map (λ s. s.0) builtin_sources)
        × Matched IsSafe extras added
        × (distinct (names engine all) ≡ true)
  unfolding new_with_extras new_default
  new_with_extras_sound extras h =
      let (builtin, hb, h1) = >>=-eq-ok (new_default engine) _ h in
      let (added, ha, h2) = >>=-eq-ok (add_extras engine (names engine builtin) 0 extras) _ h1 in
      let accepted = add_extras-Accepted (names engine builtin) 0 extras ha in
      let known = names-compile_all builtin_sources hb in
      (
        builtin,
        added,
        hb,
        sym (ok_inj h2),
        known,
        accepted.matched,
        subst (λ l. distinct (names engine l) ≡ true) (ok_inj h2)
            (subst (λ l. distinct l ≡ true) (sym (names-append builtin added))
              (distinct-append (names engine builtin) (names engine added)
                (subst (λ l. distinct l ≡ true) (sym known) builtin_distinct) accepted.are_distinct
                accepted.are_new)),
      )
