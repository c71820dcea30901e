-- ===== src/Depot/Materialisation/Selects.antt =====
-- A materialisation plan spools the manifests of the machines that have changed, each once and in
-- order, and applying them brings the Workspace to the planned vector.
use aha.Prelude.{
  List, [], ◌∷◌, ◌++◌, ok, ◌≡◌, refl, sym, ap, subst, >>=-eq-ok, ok_inj, append-nil, ◌∙◌,
  if◌then◌else◌, Bool-cases, inl, inr, All, All-append,
}
use aha.Text.{Bytes, text_eq_iff}
use aha.Text.Dict.{Dict}
use aha.Model.Snapshot.Codec.{
  ManifestSha256, PreparedSnapshot, decode_prepared_snapshot, decode_snapshot_manifest,
}
use aha.Depot.Store.{World}
use aha.Depot.Store.Steps.{Returns, >>=-Returns, pure-Returns, raise_if-Returns, or_raise-Returns}
use aha.Depot.Codec.{Externals}
use aha.Depot.Machine.{prepared_manifest}
use aha.Depot.Download.{
  DownloadPlan, Known, selected_prepared_manifest, is_materialised, planned, plan_machines,
}
use aha.Depot.Materialisation.{
  MaterialisationPlan, SpooledManifest, Draft, prepare_machine, prepare_loop, plan_of,
  prepare_materialisation,
}
use aha.Depot.Materialisation.Agrees.{take_manifest-agrees, spooled_as}

-- The machines that a Workspace does not have at their planned identity.
pub changed : DownloadPlan → Dict Bytes → List Bytes → List Bytes
changed p materialised [] = []
changed p materialised (machine ∷ machines) =
    let rest = changed p materialised machines in
    if is_materialised materialised machine (planned p machine) then rest else machine ∷ rest

abbrev pub machines_of : List SpooledManifest → List Bytes
machines_of [] = []
machines_of (s ∷ rest) = s.machine ∷ machines_of rest

machines-append :
    (xs : List SpooledManifest) (s : SpooledManifest) (ys : List Bytes)
    → machines_of (xs ++ s ∷ []) ++ ys ≡ machines_of xs ++ s.machine ∷ ys
machines-append [] s ys = refl
machines-append (a ∷ xs) s ys = ap (λ l. a.machine ∷ l) (machines-append xs s ys)

module _ (x : Externals) (p : DownloadPlan) where
  -- The spooled bytes are those of a manifest with the planned identity.
  pub record IsSelected (s : SpooledManifest) : Type 0 where
    pub prepared : PreparedSnapshot
    pub decodes : decode_prepared_snapshot x.sha256 x.manifest_json s.content ≡ ok prepared
    pub is_named : prepared.sha.value ≡ s.sha.value
    pub is_planned : s.sha ≡ planned p s.machine

  canonical-decodes :
      (b : Bytes) (q : PreparedSnapshot)
      → decode_prepared_snapshot x.sha256 x.manifest_json b ≡ ok q
      → decode_prepared_snapshot x.sha256 x.manifest_json q.canonical ≡ ok q
  unfolding decode_prepared_snapshot
  canonical-decodes b q h =
      let ((m, sha), _, h1) = >>=-eq-ok (decode_snapshot_manifest x.sha256 x.manifest_json b) _ h in
      let same : b ≡ q.canonical = ap PreparedSnapshot.canonical (ok_inj h1) in
      ap (decode_prepared_snapshot x.sha256 x.manifest_json) (sym same) ∙ h

  prepared_manifest-decodes :
      (machine : Bytes) (sha : ManifestSha256) (w : World) {q : PreparedSnapshot} {v : World}
      → Returns (prepared_manifest x machine sha) w q v
      → decode_prepared_snapshot x.sha256 x.manifest_json q.canonical ≡ ok q
  unfolding prepared_manifest
  prepared_manifest-decodes machine sha w h =
      let (_, h1) = raise_if-Returns _ _ _ w h in
      let ((b, etag), u, _, h2) = >>=-Returns _ _ w h1 in
      let (q', e, h3) = or_raise-Returns _ _ _ u h2 in
      let (_, h4) = raise_if-Returns _ _ _ u h3 in
      let (_, h5) = raise_if-Returns _ _ _ u h4 in
      let (same, _) = pure-Returns q' u h5 in canonical-decodes b _ (e ∙ ap ok same)

  selected-decodes :
      (machine : Bytes) (w : World) {q : PreparedSnapshot} {v : World}
      → Returns (selected_prepared_manifest x p machine) w q v
      → decode_prepared_snapshot x.sha256 x.manifest_json q.canonical ≡ ok q
  unfolding selected_prepared_manifest
  selected-decodes machine w h =
      let (sha, u, _, h1) = >>=-Returns _ _ w h in prepared_manifest-decodes machine sha u h1

  module _ (materialised supported : Dict Bytes) (known : Known) where
    machine-selects :
        (machine : Bytes) (d : Draft) (w : World) {d' : Draft} {v : World}
        → Returns (prepare_machine x p supported known d machine) w d' v
        → All IsSelected d.spooled
        → (s : SpooledManifest) × (s.machine ≡ machine)
          × (d'.spooled ≡ d.spooled ++ s ∷ [])
          × All IsSelected d'.spooled
    unfolding prepare_machine spooled_as
    machine-selects machine d w h g =
        let (q, u, h1, h2) = >>=-Returns _ _ w h in
        let (_, _, _, named, spools) = take_manifest-agrees p supported known machine q d u h2 in
        let s = spooled_as p supported known machine q in
        let chosen : IsSelected s = record {
          prepared = q;
          decodes = selected-decodes machine w h1;
          is_named = (text_eq_iff _ _).0 named;
          is_planned = refl;
        } in
        (
          s,
          refl,
          spools,
          subst (All IsSelected) (sym spools) (All-append IsSelected d.spooled _ g (chosen, tt)),
        )

    loop-selects :
        (machines : List Bytes) (d : Draft) (w : World) {d' : Draft} {v : World}
        → Returns (prepare_loop x p materialised supported known d machines) w d' v
        → All IsSelected d.spooled
        → (machines_of d'.spooled ≡ machines_of d.spooled ++ changed p materialised machines)
          × All IsSelected d'.spooled
    unfolding prepare_loop changed
    loop-selects [] d w h g =
        let (q, _) = pure-Returns d w h in
        (
          ap (λ c. machines_of c.spooled) (sym q) ∙ sym (append-nil _),
          subst (λ c. All IsSelected c.spooled) q g,
        )
    loop-selects (machine ∷ machines) d w h g =
        elim (Bool-cases (is_materialised materialised machine (planned p machine))) [
          | inl e ↦ rw e (loop-selects machines d w (rw e at h) g)
          | inr e ↦
              let (d1, u, h1, h2) = >>=-Returns _ _ w (rw e at h) in
              let (s, q, spools, g1) = machine-selects machine d w h1 g in
              let (a, b) = loop-selects machines d1 u h2 g1 in
              (
                rw e (
                    a
                    ∙ ap (λ l. machines_of l ++ changed p materialised machines) spools
                    ∙ machines-append d.spooled s _
                    ∙ ap (λ m. machines_of d.spooled ++ m ∷ changed p materialised machines) q),
                b,
              )
        ]

    -- When a materialisation plan is made, it has spooled one manifest for each machine that is not
    -- materialised at its planned identity, in the order of the machines, and for no other machine;
    -- each spooled document decodes to a manifest whose hash is the identity planned for its machine.
    pub prepare_materialisation-selects :
        (w v : World) (plan : MaterialisationPlan)
        → prepare_materialisation x p materialised supported known w ≡ (ok plan, v)
        → (machines_of plan.spooled ≡ changed p materialised (plan_machines p))
          × All IsSelected plan.spooled
    unfolding prepare_materialisation plan_of
    prepare_materialisation-selects w v plan h =
        let (d, u, e, k) = >>=-Returns _ _ w h in
        let (a, b) = loop-selects (plan_machines p) _ w e tt in
        let (q, _) = pure-Returns (plan_of p d) u k in
        subst
          (λ c.
            (machines_of c.spooled ≡ changed p materialised (plan_machines p))
            × All IsSelected c.spooled)
          q (a, b)
