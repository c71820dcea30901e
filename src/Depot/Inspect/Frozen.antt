-- ===== src/Depot/Inspect/Frozen.antt =====
-- The plan that an inspection freezes is the one that preparing a pull and planning the download make.
use aha.Prelude.{
  length, ◌==◌, Bool, true, false, ◌&&◌, List, [], ◌∷◌, ◌++◌, Option, none, some, Result, ok, err,
  ◌≡◌, ◌≢◌, refl, sym, ap, subst, ◌∙◌, none_not_some, some_inj, if◌then◌else◌,
}
use aha.Text.{Bytes}
use aha.Text.Dict.{Dict, put}
use aha.Model.Identity.{Sha256Hex}
use aha.Model.Snapshot.Files.{SnapshotManifest}
use aha.Model.Snapshot.Codec.{ManifestSha256}
use aha.Model.Snapshot.Validate.{SnapshotError}
use aha.Depot.Store.{Objects, World, Depot, DepotError, pure, raise}
use aha.Depot.Store.Quiet.{quietly}
use aha.Depot.Store.Steps.{Returns, starts_at, >>=-Returns, pure-Returns, bind_known}
use aha.Depot.Store.Reads.{
  value, read_bind, read_Returns, machines-Reads, read_attempt, pure-Reads, latest-Reads,
  manifest-Reads,
}
use aha.Depot.Codec.{Externals}
use aha.Depot.Machine.{machines, latest, manifest}
use aha.Depot.Download.{PreparedPull, DownloadPlan, or_no_latest, freeze, plan_download}
use aha.Depot.Verify.{Problem}
use aha.Depot.Inspect.{
  ArchiveLatestMetadata, Gathered, note, is_corrupt, is_unreadable, problem_if, vector_of,
  after_state, after_manifest, after_latest, inspect_latest_metadata, frozen_plan, inspect_data,
  readable, ArchiveMetadataReport, no_problems,
}
use aha.Depot.Prepare.{pull_of}
use aha.Model.Binding.{ArchiveBinding, is_bound}

vector_of-append :
    (items : List ArchiveLatestMetadata) (item : ArchiveLatestMetadata) (out : Dict ManifestSha256)
    → vector_of out (items ++ item ∷ []) ≡ put (vector_of out items) item.machine item.manifest_sha
unfolding vector_of
vector_of-append [] item out = refl
vector_of-append (i ∷ items) item out = vector_of-append items item _

noted : (ps : List Problem) (p : Problem) → ps ++ p ∷ [] ≢ []
noted [] p e = cc
noted (q ∷ ps) p e = cc

module _ (x : Externals) (o : Objects) where
  -- A part of the loop that returns leaves the world, and without a problem it found what `R` says.
  Finds : Gathered → Depot Gathered → (Gathered → Type 0) → Type 0
  Finds g m R =
      (g' : Gathered) (v : World)
      → Returns m (quietly o) g' v
      → (v ≡ quietly o) × (g'.problems ≡ [] → (g.problems ≡ []) × R g')

  note-Finds : (g : Gathered) (p : Problem) (R : Gathered → Type 0) → Finds g (pure (note p g)) R
  unfolding note Finds
  note-Finds g p R g' v h =
      let (e, q) = pure-Returns (note p g) (quietly o) h in
      (sym q, λ k. absurd (noted g.problems p (ap (λ c. c.problems) e ∙ k)))

  problem_if-Finds :
      (b : Bool) (p : Problem) (g : Gathered) (e : DepotError) (R : Gathered → Type 0)
      → Finds g (problem_if b p g e) R
  unfolding problem_if raise Finds
  problem_if-Finds true p g e R = note-Finds g p R
  problem_if-Finds false p g e R = λ g' v h. absurd (cc)

  -- The vector has gained the machine's identity.
  Gains : Gathered → Bytes → ManifestSha256 → Gathered → Type 0
  Gains g machine sha g' = vector_of [] g'.latest ≡ put (vector_of [] g.latest) machine sha

  state-Finds :
      (machine : Bytes) (sha : ManifestSha256) (g : Gathered) (m : SnapshotManifest)
      (r : Result SnapshotError Sha256Hex)
      → Finds g (pure (after_state x machine sha g m r)) (Gains g machine sha)
  unfolding after_state Gains Finds
  state-Finds machine sha g m (err e) = note-Finds g _ _
  state-Finds machine sha g m (ok s) = λ g' v h.
      let (e, q) = pure-Returns _ (quietly o) h in
      (
        sym q,
        λ k. (
          ap (λ c. c.problems) e ∙ k,
          ap (λ c. vector_of [] c.latest) (sym e) ∙ vector_of-append g.latest _ [],
        ),
      )

  manifest-Finds :
      (machine : Bytes) (sha : ManifestSha256) (g : Gathered)
      (r : Result DepotError SnapshotManifest)
      → Finds g (after_manifest x machine sha g r) (Gains g machine sha)
  unfolding after_manifest
  manifest-Finds machine sha g (err e) = problem_if-Finds (is_unreadable e) _ g e _
  manifest-Finds machine sha g (ok m) = state-Finds machine sha g m _

  HasLatest : Gathered → Bytes → Gathered → Type 0
  HasLatest g machine g' =
      (sha : ManifestSha256) × (value (latest x machine) o ≡ ok (some sha)) × Gains g machine sha g'

  latest-Finds :
      (machine : Bytes) (g : Gathered) (r : Result DepotError (Option ManifestSha256))
      → value (latest x machine) o ≡ r
      → Finds g (after_latest x machine g r) (HasLatest g machine)
  unfolding after_latest HasLatest Finds
  latest-Finds machine g (err e) q = problem_if-Finds (is_corrupt e) _ g e _
  latest-Finds machine g (ok none) q = note-Finds g _ _
  latest-Finds machine g (ok (some sha)) q = λ g' v h.
      let (same, k) =
        manifest-Finds machine sha g _ g' v
          (sym (read_attempt (manifest x machine sha) _ o (manifest-Reads x machine sha)) ∙ h) in
      (same, λ e. let (e1, r) = k e in (e1, (sha, q, r)))

  freeze_step :
      (machine : Bytes) (sha : ManifestSha256) (out : Dict ManifestSha256) (ms : List Bytes)
      → value (latest x machine) o ≡ ok (some sha)
      → freeze x out (machine ∷ ms) (quietly o) ≡ freeze x (put out machine sha) ms (quietly o)
  unfolding freeze or_no_latest pure
  freeze_step machine sha out ms h =
      read_bind (latest x machine) _ o (latest-Reads x machine) h
      ∙ bind_known (pure sha) _ (quietly o) (pure-Reads sha o)

  loop-Freezes :
      (ms : List Bytes) (g g' : Gathered) (v : World)
      → Returns (inspect_latest_metadata x g ms) (quietly o) g' v
      → g'.problems ≡ []
      → (g.problems ≡ [])
        × (v ≡ quietly o)
        × Returns
            (freeze x (vector_of [] g.latest) ms)
            (quietly o)
            (vector_of [] g'.latest)
            (quietly o)
  unfolding inspect_latest_metadata freeze pure Finds HasLatest Gains
  loop-Freezes [] g g' v h e =
      let (q, r) = pure-Returns g (quietly o) h in
      (ap (λ c. c.problems) q ∙ e, sym r, ap (λ c. (ok (vector_of [] c.latest), quietly o)) q)
  loop-Freezes (machine ∷ ms) g g' v h e =
      let (g1, u, h1, h2) =
        >>=-Returns _ _ (quietly o)
          (sym (read_attempt (latest x machine) _ o (latest-Reads x machine)) ∙ h) in
      let (same, k) = latest-Finds machine g _ refl g1 u h1 in
      let (e1, last, fr) =
        loop-Freezes ms g1 g' v (starts_at (inspect_latest_metadata x g1 ms) same h2) e in
      let (e0, (sha, lat, gain)) = k e1 in
      (
        e0,
        last,
        freeze_step machine sha (vector_of [] g.latest) ms lat
            ∙ subst (λ d. freeze x d ms (quietly o) ≡ (ok (vector_of [] g'.latest), quietly o)) gain
                fr,
      )

  frozen_if :
      (ps : List Problem) (same : Bool) {A : Type 0} (a b : A)
      → (if no_problems ps && same then some a else none) ≡ some b
      → (ps ≡ []) × (b ≡ a)
  unfolding no_problems
  frozen_if [] true a b h = (refl, sym (some_inj h))
  frozen_if [] false a b h = absurd (none_not_some h)
  frozen_if (p ∷ ps) same a b h = absurd (none_not_some h)

  gathered-plan :
      (binding : ArchiveBinding) (c : Bool) (ms : List Bytes) (g : Gathered) (plan : DownloadPlan)
      → frozen_plan binding c ms g ≡ some plan
      → (g.problems ≡ [])
        × (plan ≡ record {
          reader = record { is_current = c; machines = ms; binding = binding };
          latest = vector_of [] g.latest;
        })
  unfolding frozen_plan no_problems
  gathered-plan binding c ms g plan h = frozen_if g.problems (length g.latest == length ms) _ plan h

  plan_of_frozen :
      (binding : ArchiveBinding) (c : Bool) (ms : List Bytes) (d : Dict ManifestSha256)
      → is_bound binding ≡ true
      → freeze x [] ms (quietly o) ≡ (ok d, quietly o)
      → let reader : PreparedPull = record { is_current = c; machines = ms; binding = binding } in
        Returns
          (plan_download x reader)
          (quietly o)
          (record { reader = reader; latest = d })
          (quietly o)
  unfolding plan_download pure
  plan_of_frozen binding c ms d bound h = rw bound (
      bind_known (pure tt) _ (quietly o) (pure-Reads tt o)
      ∙ bind_known (freeze x [] ms) _ (quietly o) h)

  -- An inspection whose data can be read freezes what planning the download of it freezes.
  pub data-Freezes :
      (binding : ArchiveBinding) (c : Bool) (report : ArchiveMetadataReport) (plan : DownloadPlan)
      (v : World)
      → is_bound binding ≡ true
      → Returns (inspect_data x (readable binding c)) (quietly o) report v
      → report.plan ≡ some plan
      → (v ≡ quietly o)
        × (plan.reader.is_current ≡ c)
        × Returns
            (pull_of x (record { binding = binding; is_current = c }))
            (quietly o)
            plan.reader
            (quietly o)
        × Returns (plan_download x plan.reader) (quietly o) plan (quietly o)
  unfolding inspect_data pull_of pure vector_of
  data-Freezes binding c report plan v bound h e =
      let (ms, u, h1, h2) = >>=-Returns _ _ (quietly o) h in
      let (found, same) = read_Returns (machines x) o (machines-Reads x) h1 in
      let (g, u1, h3, h4) = >>=-Returns _ _ u h2 in
      let (made, last) = pure-Returns _ u1 h4 in
      let (clean, named) = gathered-plan binding c ms g plan (ap (λ q. q.plan) made ∙ e) in
      let gathered = starts_at (inspect_latest_metadata x _ ms) same h3 in
      let (_, still, frozen) = loop-Freezes ms _ g u1 gathered clean in
      let both =
        subst
          (λ (q : DownloadPlan).
            (q.reader.is_current ≡ c)
            × Returns (pull_of x (record { binding = binding; is_current = c })) (quietly o)
                q.reader (quietly o)
            × Returns (plan_download x q.reader) (quietly o) q (quietly o))
          (sym named)
          (
            refl,
            read_bind (machines x) _ o (machines-Reads x) found,
            plan_of_frozen binding c ms _ bound frozen,
          ) in
      (sym last ∙ still, both.0, both.1, both.2)
