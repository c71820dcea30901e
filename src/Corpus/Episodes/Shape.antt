-- ===== src/Corpus/Episodes/Shape.antt =====
-- The shape of one episode, as the comment on `FailureEpisode` has it, and what `resolve` makes of an
-- open one.
use aha.Prelude.{
  ℕ, suc, ◌+◌, ◌-◌, ◌<◌, ◌≤◌, true, false, List, [], ◌∷◌, ◌++◌, Option, none, some, ◌≡◌, ◌≢◌, ◌⊎◌,
  refl, length, map, drop, length-take, length-drop, arith, subst, sym, ap, ◌∙◌,
}
use aha.Prelude.Int.{ℤ, pos, negsuc, int_ltb}
use aha.Text.{Bytes}
use aha.Corpus.Invocation.{ToolInvocation}
use aha.Corpus.Episodes.{
  FailureEpisode, EpisodeConfig, OpenEpisode, sub_times, between, parse_timestamp, gap_exceeded,
  within_budget, resolve, opened,
}

module _ (parse_time : Bytes → Option ℤ) (cfg : EpisodeConfig) where
  -- What resolution has set is not set.
  pub record IsAbandoned (ep : FailureEpisode) : Type 0 where
    pub not_resolved : ep.resolved ≡ false
    pub no_entry : ep.resolve_entry_id ≡ []
    pub no_ordinal : ep.resolve_ordinal ≡ negsuc 0
    pub no_path : ep.resolution_path ≡ none
    pub no_time : ep.resolved_at ≡ []

  -- The resolver is named; the path ends in the episode's own family; opener, path and resolver are
  -- within the budget of steps; and the two times, where both can be read, within the gap.
  pub record IsResolved (ep : FailureEpisode) : Type 0 where
    pub is_resolved : ep.resolved ≡ true
    pub has_entry : ep.resolve_entry_id ≢ []
    pub has_ordinal : int_ltb ep.resolve_ordinal (pos 0) ≡ false
    pub path :
        (others : List Bytes) × (ep.resolution_path ≡ some (others ++ ep.command_family ∷ []))
        × (int_ltb cfg.max_steps (pos (length others + 2)) ≡ false)
    pub in_time :
        (t u : ℤ)
        → parse_timestamp parse_time cfg ep.opened_at ≡ some t
        → parse_timestamp parse_time cfg ep.resolved_at ≡ some u
        → int_ltb cfg.max_gap (sub_times u t) ≡ false

  abbrev pub IsWellFormed : FailureEpisode → Type 0
  IsWellFormed ep = IsAbandoned ep ⊎ IsResolved ep

  -- What the store gives an invocation.
  abbrev pub IsNamed : ToolInvocation → Type 0
  IsNamed iv = (iv.entry_id ≢ []) × (int_ltb iv.ordinal (pos 0) ≡ false)

  pub opened-IsAbandoned : (iv : ToolInvocation) → IsAbandoned (opened parse_time cfg iv)
  unfolding opened
  opened-IsAbandoned iv = record {
    not_resolved = refl;
    no_entry = refl;
    no_ordinal = refl;
    no_path = refl;
    no_time = refl;
  }

  length-families :
      (ivs : List ToolInvocation) → length (map (λ v. v.command_family) ivs) ≡ length ivs
  length-families [] = refl
  length-families (iv ∷ ivs) = omega (arith, length-families ivs)

  length-between :
      (i j : ℕ) (ivs : List ToolInvocation)
      → i < j
      → j ≤ length ivs
      → length (between i j ivs) + suc i ≡ j
  unfolding between
  length-between i j ivs h k =
      omega
        (arith, length-take (j - suc i) (drop (suc i) ivs) (omega (arith, length-drop (suc i) ivs)))

  -- The two halves of the budget.
  budget_parts :
      (ep : OpenEpisode) (i : ℕ) (s : Bytes)
      → within_budget parse_time cfg ep i s ≡ true
      → (int_ltb cfg.max_steps (pos (i - ep.open_index + 1)) ≡ false)
        × (gap_exceeded parse_time cfg ep.open_time (parse_timestamp parse_time cfg s) ≡ false)
  unfolding within_budget
  budget_parts ep i s h = ground arith

  gap_of :
      (a b : Option ℤ) (t u : ℤ)
      → gap_exceeded parse_time cfg a b ≡ false
      → a ≡ some t
      → b ≡ some u
      → int_ltb cfg.max_gap (sub_times u t) ≡ false
  unfolding gap_exceeded
  gap_of (some t') (some u') t u h p q =
      subst (λ v. int_ltb cfg.max_gap (sub_times u v) ≡ false) (cc (p))
        (subst (λ v. int_ltb cfg.max_gap (sub_times v t') ≡ false) (cc (q)) h)
  gap_of none b t u h p q = cc
  gap_of (some t') none t u h p q = cc

  pub resolve-IsResolved :
      (sorted : List ToolInvocation) (i : ℕ) (iv : ToolInvocation) (oe : OpenEpisode)
      (ep : FailureEpisode)
      → IsNamed iv
      → i ≤ length sorted
      → oe.open_index < i
      → ep.command_family ≡ iv.command_family
      → oe.open_time ≡ parse_timestamp parse_time cfg ep.opened_at
      → within_budget parse_time cfg oe i iv.timestamp ≡ true
      → IsResolved (resolve parse_time cfg sorted oe.open_index i iv ep)
  unfolding resolve
  resolve-IsResolved sorted i iv oe ep (n, o) l b f t h =
      let (steps, gap) = budget_parts oe i iv.timestamp h in
      let others =
        map (λ (v : ToolInvocation). v.command_family) (between oe.open_index i sorted) in
      let count : i - oe.open_index + 1 ≡ length others + 2 = omega (
        arith,
        length-families (between oe.open_index i sorted),
        length-between oe.open_index i sorted b l,
      ) in
      record {
        is_resolved = refl;
        has_entry = n;
        has_ordinal = o;
        path = (
          others,
          ap (λ (g : Bytes). some (others ++ g ∷ [])) (sym f),
          subst (λ m. int_ltb cfg.max_steps (pos m) ≡ false) count steps,
        );
        in_time = λ x y p q. gap_of oe.open_time _ x y gap (t ∙ p) q;
      }
