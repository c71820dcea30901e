-- ===== src/Corpus/Episodes/Invariant.antt =====
-- Every episode that the scan of a session makes has the shape of an abandoned or a resolved one.
use aha.Prelude.{
  ℕ, suc, ◌+◌, ◌<◌, ◌≤◌, Bool, true, false, List, [], ◌∷◌, ◌++◌, Option, none, some, ◌≡◌, inl, inr,
  refl, length, All, All-append, All-modify, get_elem?, get_elem?-append, get_elem?-append_length,
  get_elem?-modify, modify, if◌then◌else◌, Bool-cases, arith, subst, sym, ap, ◌∙◌,
}
use aha.Prelude.Int.{ℤ, pos, negsuc, int_ltb}
use aha.Text.Order.{text_ltb}
use aha.Text.Order.Laws.{text_ltb-asymm}
use aha.Prelude.Sort.{All-sort_stable, InOrder, sort_stable-InOrder}
use aha.Text.{Bytes, text_eq, text_eq_iff}
use aha.Text.Dict.{Dict, get, delete, get-put, get-delete}
use aha.Corpus.Invocation.{ToolInvocation}
use aha.Corpus.Episodes.{
  Grouped, then_less, episode_less, or_empty, add_invocation, group, assemble_each,
  assemble_episodes, FailureEpisode, EpisodeConfig, OpenEpisode, Scan, parse_timestamp,
  within_budget, resolve, opened, on_failure, on_success, scan_one, scan, sort_invocations,
  assemble_session,
}
use aha.Corpus.Episodes.Shape.{IsWellFormed, IsNamed, opened-IsAbandoned, resolve-IsResolved}

int_ltb-asymm : (a b : ℤ) → int_ltb a b ≡ true → int_ltb b a ≡ false
unfolding int_ltb
int_ltb-asymm (pos a) (pos b) h = ground arith
int_ltb-asymm (pos a) (negsuc b) h = cc
int_ltb-asymm (negsuc a) (pos b) h = refl
int_ltb-asymm (negsuc a) (negsuc b) h = ground arith

-- Two keys, of which the first decides where they differ.
then_less-asymm :
    (s t : Bytes) (p q : Bool)
    → (p ≡ true → q ≡ false)
    → then_less (text_eq s t) (text_ltb s t) p ≡ true
    → then_less (text_eq t s) (text_ltb t s) q ≡ false
then_less-asymm s t p q k h = ground (arith, text_eq_iff s t, text_eq_iff t s, text_ltb-asymm s t)

episode_less-asymm : (a b : FailureEpisode) → episode_less a b ≡ true → episode_less b a ≡ false
unfolding episode_less
episode_less-asymm a b h =
    then_less-asymm a.session_key b.session_key _ _
      (then_less-asymm a.opened_at b.opened_at _ _ (
        then_less-asymm a.open_entry_id b.open_entry_id _ _
          (int_ltb-asymm a.open_ordinal b.open_ordinal)))
      h

module _ (parse_time : Bytes → Option ℤ) (cfg : EpisodeConfig) where
  -- The open episode of a family is in the list, and was opened before the place `i`.
  abbrev Tracks : List FailureEpisode → ℕ → Bytes → OpenEpisode → Type 0
  Tracks eps i family oe =
      (oe.open_index < i)
      × (ep : FailureEpisode) × (get_elem? eps oe.out ≡ some ep)
      × (ep.command_family ≡ family)
      × (oe.open_time ≡ parse_timestamp parse_time cfg ep.opened_at)

  record IsSound (i : ℕ) (s : Scan) : Type 0 where
    shapes : All (IsWellFormed parse_time cfg) s.episodes
    tracks :
        (family : Bytes) (oe : OpenEpisode)
        → get s.open_by family ≡ some oe
        → Tracks s.episodes i family oe

  Tracks-later :
      (eps : List FailureEpisode) (i : ℕ) (family : Bytes) (oe : OpenEpisode)
      → Tracks eps i family oe
      → Tracks eps (suc i) family oe
  Tracks-later eps i family oe (l, ep, g, f, t) = (omega arith, ep, g, f, t)

  Tracks-append :
      (eps more : List FailureEpisode) (i : ℕ) (family : Bytes) (oe : OpenEpisode)
      → Tracks eps i family oe
      → Tracks (eps ++ more) (suc i) family oe
  Tracks-append eps more i family oe (l, ep, g, f, t) =
      (omega arith, ep, get_elem?-append eps more oe.out g, f, t)

  Tracks-resolve :
      (sorted : List ToolInvocation) (n m j i : ℕ) (iv : ToolInvocation) (eps : List FailureEpisode)
      (family : Bytes) (oe : OpenEpisode)
      → Tracks eps i family oe
      → Tracks (modify n (resolve parse_time cfg sorted m j iv) eps) (suc i) family oe
  unfolding resolve
  Tracks-resolve sorted n m j i iv eps family oe (l, ep, g, f, t) =
      let (y, g', d) = get_elem?-modify n (resolve parse_time cfg sorted m j iv) eps oe.out ep g in
      let same : (y.command_family ≡ ep.command_family) × (y.opened_at ≡ ep.opened_at) = elim d [
        | inl e ↦ (ap (λ u. u.command_family) e, ap (λ u. u.opened_at) e)
        | inr e ↦ (ap (λ u. u.command_family) e, ap (λ u. u.opened_at) e)
      ] in
      (omega arith, y, g', same.0 ∙ f, t ∙ ap (parse_timestamp parse_time cfg) (sym same.1))

  from_delete :
      (d : Dict OpenEpisode) (j k : Bytes) (oe : OpenEpisode)
      → get (delete d j) k ≡ some oe
      → get d k ≡ some oe
  from_delete d j k oe h = elim (Bool-cases (text_eq j k)) [
    | inl e ↦ cc (rw (get-delete d j k, e) at h)
    | inr e ↦ rw (get-delete d j k, e) at h
  ]

  abbrev started : ℕ → ToolInvocation → Scan → OpenEpisode
  started i iv s = record {
    out = length s.episodes;
    open_index = i;
    open_time = parse_timestamp parse_time cfg iv.timestamp;
  }

  on_failure-IsSound :
      (i : ℕ) (iv : ToolInvocation) (s : Scan) (o : Option OpenEpisode)
      → IsSound i s
      → IsSound (suc i) (on_failure parse_time cfg i iv s o)
  unfolding on_failure opened
  on_failure-IsSound i iv s (some _) h = record {
    shapes = h.shapes;
    tracks = λ k oe g. Tracks-later s.episodes i k oe (h.tracks k oe g);
  }
  on_failure-IsSound i iv s none h = record {
    shapes =
        All-append (IsWellFormed parse_time cfg) s.episodes (opened parse_time cfg iv ∷ []) h.shapes
          (inl (opened-IsAbandoned parse_time cfg iv), tt);
    tracks = λ k oe g. elim (Bool-cases (text_eq iv.command_family k)) [
      | inl e ↦
          let q : ◌≡◌ {A = Option OpenEpisode} (some (started i iv s)) (some oe) =
            rw (get-put s.open_by iv.command_family (started i iv s) k, e) at g in
          let p : started i iv s ≡ oe = cc (q) in
          subst (λ u. Tracks (s.episodes ++ opened parse_time cfg iv ∷ []) (suc i) k u) p
            (
              omega arith,
              opened parse_time cfg iv,
              get_elem?-append_length s.episodes [] (opened parse_time cfg iv),
              (text_eq_iff iv.command_family k).0 e,
              refl,
            )
      | inr e ↦
          Tracks-append s.episodes _ i k oe
            (h.tracks k oe (rw (get-put s.open_by iv.command_family (started i iv s) k, e) at g))
    ];
  }

  on_success-IsSound :
      (sorted : List ToolInvocation) (i : ℕ) (iv : ToolInvocation) (s : Scan)
      (o : Option OpenEpisode)
      → IsNamed parse_time cfg iv
      → i ≤ length sorted
      → get s.open_by iv.command_family ≡ o
      → IsSound i s
      → IsSound (suc i) (on_success parse_time cfg sorted i iv s o)
  unfolding on_success
  on_success-IsSound sorted i iv s none n l e h = record {
    shapes = h.shapes;
    tracks = λ k oe g. Tracks-later s.episodes i k oe (h.tracks k oe g);
  }
  on_success-IsSound sorted i iv s (some oe) n l e h =
      elim (Bool-cases (within_budget parse_time cfg oe i iv.timestamp)) [
        | inl b ↦ rw b (record {
          shapes = All-modify (IsWellFormed parse_time cfg) oe.out _ s.episodes h.shapes (λ ep g.
              let (j, ep', g', f, t) = h.tracks iv.command_family oe e in
              let same : ep' ≡ ep = cc (g, g') in
              inr (
                resolve-IsResolved parse_time cfg sorted i iv oe ep n l j
                  (ap (λ u. u.command_family) (sym same) ∙ f)
                  (t ∙ ap (λ (u : FailureEpisode). parse_timestamp parse_time cfg u.opened_at) same)
                  b));
          tracks = λ k oe' g.
              Tracks-resolve sorted oe.out oe.open_index i i iv s.episodes k oe'
                (h.tracks k oe' (from_delete s.open_by iv.command_family k oe' g));
        })
        | inr b ↦ rw b (record {
          shapes = h.shapes;
          tracks = λ k oe' g.
              Tracks-later s.episodes i k oe'
                (h.tracks k oe' (from_delete s.open_by iv.command_family k oe' g));
        })
      ]

  if-IsSound :
      (i : ℕ) (b : Bool) (s t : Scan) → IsSound i s → IsSound i t → IsSound i (if b then s else t)
  if-IsSound i true s t h k = h
  if-IsSound i false s t h k = k

  scan-IsSound :
      (sorted : List ToolInvocation) (i : ℕ) (ivs : List ToolInvocation) (s : Scan)
      → All (IsNamed parse_time cfg) ivs
      → i + length ivs ≤ length sorted
      → IsSound i s
      → All (IsWellFormed parse_time cfg) (scan parse_time cfg sorted i ivs s).episodes
  unfolding scan scan_one
  scan-IsSound sorted i [] s n l h = h.shapes
  scan-IsSound sorted i (iv ∷ ivs) s (n, ns) l h =
      scan-IsSound sorted (suc i) ivs _ ns (omega arith) (
        if-IsSound (suc i) iv.is_error _ _ (on_failure-IsSound i iv s _ h)
          (on_success-IsSound sorted i iv s _ n (omega arith) refl h))

  pub assemble_session-IsWellFormed :
      (session : List ToolInvocation)
      → All (IsNamed parse_time cfg) session
      → All (IsWellFormed parse_time cfg) (assemble_session parse_time cfg session)
  unfolding assemble_session sort_invocations get
  assemble_session-IsWellFormed session n =
      scan-IsSound (sort_invocations parse_time cfg session) 0
        (sort_invocations parse_time cfg session) (record { episodes = []; open_by = [] })
        (All-sort_stable _ (IsNamed parse_time cfg) session n) (omega arith)
        (record { shapes = tt; tracks = λ k oe g. absurd (empty k oe g) })
    where
      empty : (k : Bytes) (oe : OpenEpisode) → get [] k ≡ some oe → ⊥
      empty k oe g = cc (g)

  -- What holds of the invocations holds of those of each session.
  abbrev Each : (ToolInvocation → Type 0) → Dict (List ToolInvocation) → Type 0
  Each P d = (k : Bytes) → All P (or_empty (get d k))

  add_invocation-Each :
      (P : ToolInvocation → Type 0) (g : Grouped) (iv : ToolInvocation)
      → Each P g.by_session
      → P iv
      → Each P (add_invocation g iv).by_session
  unfolding add_invocation
  add_invocation-Each P g iv h p k = elim (Bool-cases (text_eq iv.session_key k)) [
    | inl e ↦
        rw (get-put g.by_session iv.session_key _ k, e)
          (All-append P (or_empty (get g.by_session iv.session_key)) (iv ∷ []) (h iv.session_key)
            (p, tt))
    | inr e ↦ rw (get-put g.by_session iv.session_key _ k, e) (h k)
  ]

  group-Each :
      (P : ToolInvocation → Type 0) (g : Grouped) (ivs : List ToolInvocation)
      → Each P g.by_session
      → All P ivs
      → Each P (group g ivs).by_session
  unfolding group
  group-Each P g [] h p = h
  group-Each P g (iv ∷ ivs) h (p, ps) =
      group-Each P (add_invocation g iv) ivs (add_invocation-Each P g iv h p) ps

  assemble_each-IsWellFormed :
      (d : Dict (List ToolInvocation)) (ks : List Bytes)
      → Each (IsNamed parse_time cfg) d
      → All (IsWellFormed parse_time cfg) (assemble_each parse_time cfg d ks)
  unfolding assemble_each
  assemble_each-IsWellFormed d [] h = tt
  assemble_each-IsWellFormed d (k ∷ ks) h =
      All-append (IsWellFormed parse_time cfg) _ (assemble_each parse_time cfg d ks)
        (assemble_session-IsWellFormed (or_empty (get d k)) (h k))
        (assemble_each-IsWellFormed d ks h)

  -- Where every invocation has an entry and an ordinal that is not negative, every episode that
  -- `assembleEpisodes` returns is either abandoned, with no resolution set, or resolved: its resolver
  -- is named, its path ends in its own command family, opener, path and resolver are within the
  -- budget of steps, and the times, where both can be read, within the gap. And the episodes are in
  -- order of session, opening time, entry and ordinal.
  pub assemble_episodes-IsWellFormed :
      (invs : List ToolInvocation)
      → All (IsNamed parse_time cfg) invs
      → All (IsWellFormed parse_time cfg) (assemble_episodes parse_time cfg invs)
        × InOrder episode_less (assemble_episodes parse_time cfg invs)
  unfolding assemble_episodes get
  assemble_episodes-IsWellFormed invs n =
      let g = group (record { order = []; by_session = [] }) invs in
      let eps = assemble_each parse_time cfg g.by_session g.order in
      (
        All-sort_stable episode_less (IsWellFormed parse_time cfg) eps (
            assemble_each-IsWellFormed g.by_session g.order (
              group-Each (IsNamed parse_time cfg) (record { order = []; by_session = [] }) invs
                (λ k. tt) n)),
        sort_stable-InOrder episode_less episode_less-asymm eps,
      )
