-- ===== src/Depot/Materialisation/Agrees.antt =====
-- The delta that a materialisation plan counts in a scratch table is the one that `SummaryDelta`
-- counts in a map, and what it checks is what `RequireAdapters` checks.
use aha.Model.Snapshot.Codec.{PreparedSnapshot}
use aha.Depot.Codec.{Externals}
use aha.Prelude.{
  arith, sym, false, true, not, Bool, List, [], ◌∷◌, ◌++◌, Option, none, some, ok, ◌≡◌, ap, ◌∙◌,
  Bool-cases, inl, inr,
}
use aha.Text.{Bytes, contains, text_eq}
use aha.Text.Dict.{Dict, get}
use aha.Model.Snapshot.Files.{ManifestFile, ManifestAdapt}
use aha.Depot.Store.{World, Depot, pure, raise}
use aha.Depot.Store.Steps.{
  pure_view, ends_at, starts_at, raise_if-Returns, Returns, or_raise-Returns, lift-still,
  >>=-Returns, >>=-follows, bind_known, pure-Returns,
}
use aha.Depot.Download.{
  plan_machines, no_delta, require_adapters, summary_delta, summary_of, no_delta, is_materialised,
  selected_manifest, adapters_loop, delta_loop, planned, selected_prepared_manifest, DownloadPlan,
  Delta, Known, count_new, count_file, count_files, require_manifest_adapters, require_adapter,
}
use aha.Depot.Materialisation.{
  plan_of, MaterialisationPlan, prepare_materialisation, spool, SpooledManifest, take_manifest,
  prepare_loop, prepare_machine, Draft, insert_or_ignore, count_inserted, insert_file, insert_files,
}

-- The delta that a draft holds.
unfoldable pub delta_of : Draft → Delta
delta_of d = record {
  seen = d.rows;
  unknown_blobs = d.unknown_blobs;
  unknown_bytes = d.unknown_bytes;
}

not-false : (b : Bool) → not b ≡ false → b ≡ true
not-false b h = ground arith

new-agrees :
    (known : Known) (d : Draft) (f : ManifestFile) (w : World) {d' : Draft} {v : World}
    → Returns (count_inserted known f (f.sha256 ∷ d.rows) d) w d' v
    → Returns (count_new known (delta_of d) f) w (delta_of d') v
unfolding count_inserted count_new delta_of
new-agrees known d f w h =
    >>=-follows _ _ _ w (λ k u _. >>=-follows _ _ _ u (λ b u' _. pure_view delta_of _ u')) h

file-agrees :
    (known : Known) (d : Draft) (f : ManifestFile) (w : World) {d' : Draft} {v : World}
    → Returns (insert_file known d f) w d' v
    → Returns (count_file known (delta_of d) f) w (delta_of d') v
unfolding insert_file count_file insert_or_ignore delta_of
file-agrees known d f w h = elim (Bool-cases (contains d.rows f.sha256)) [
  | inl e ↦ rw e (pure_view delta_of d w (rw e at h))
  | inr e ↦ rw e (new-agrees known d f w (rw e at h))
]

files-agree :
    (known : Known) (fs : List ManifestFile) (d : Draft) (w : World) {d' : Draft} {v : World}
    → Returns (insert_files known d fs) w d' v
    → Returns (count_files known (delta_of d) fs) w (delta_of d') v
unfolding insert_files count_files
files-agree known [] d w h = pure_view delta_of d w h
files-agree known (f ∷ fs) d w h =
    let (d1, u, e, k) = >>=-Returns _ _ w h in
    bind_known _ _ w (file-agrees known d f w e) ∙ files-agree known fs d1 u k

-- The counts ask nothing of the Archive.
new-still :
    (known : Known) (d : Draft) (f : ManifestFile) (w : World) {d' : Draft} {v : World}
    → Returns (count_inserted known f (f.sha256 ∷ d.rows) d) w d' v
    → (w ≡ v) × (d.spooled ≡ d'.spooled)
unfolding count_inserted
new-still known d f w h =
    let (k, _, h1) = or_raise-Returns _ _ _ w h in
    let (b, u, e, h2) = >>=-Returns _ _ w h1 in
    let (p, q) = pure-Returns _ u h2 in (lift-still (known f.sha256) w e ∙ q, ap (λ c. c.spooled) p)

file-still :
    (known : Known) (d : Draft) (f : ManifestFile) (w : World) {d' : Draft} {v : World}
    → Returns (insert_file known d f) w d' v
    → (w ≡ v) × (d.spooled ≡ d'.spooled)
unfolding insert_file insert_or_ignore
file-still known d f w h = elim (Bool-cases (contains d.rows f.sha256)) [
  | inl e ↦ let (p, q) = pure-Returns d w (rw e at h) in (q, ap (λ c. c.spooled) p)
  | inr e ↦ new-still known d f w (rw e at h)
]

files-still :
    (known : Known) (fs : List ManifestFile) (d : Draft) (w : World) {d' : Draft} {v : World}
    → Returns (insert_files known d fs) w d' v
    → (w ≡ v) × (d.spooled ≡ d'.spooled)
unfolding insert_files
files-still known [] d w h = let (p, q) = pure-Returns d w h in (q, ap (λ c. c.spooled) p)
files-still known (f ∷ fs) d w h =
    let (d1, u, e, k) = >>=-Returns _ _ w h in
    let (p, q) = file-still known d f w e in
    let (p', q') = files-still known fs d1 u k in (p ∙ p', q ∙ q')

requirement-still :
    (a : ManifestAdapt) (version : Option Bytes) (rest : Depot (Unit {0})) (w : World) {v : World}
    → Returns (require_adapter a version rest) w tt v
    → Returns rest w tt v
unfolding require_adapter raise
requirement-still a none rest w h = absurd (cc h)
requirement-still a (some version) rest w h = elim (Bool-cases (text_eq version a.version)) [
  | inl e ↦ rw e at h
  | inr e ↦ absurd (cc (rw e at h))
]

require-still :
    (supported : Dict Bytes) (reqs : List ManifestAdapt) (w : World) {v : World}
    → Returns (require_manifest_adapters supported reqs) w tt v
    → w ≡ v
unfolding require_manifest_adapters
require-still supported [] w h = (pure-Returns tt w h).1
require-still supported (a ∷ rest) w h =
    require-still supported rest w (requirement-still a (get supported a.name) _ w h)

-- The part of one machine's preparation behind the fetched manifest, and what it spools.
module _ (p : DownloadPlan) (supported : Dict Bytes) (known : Known) (machine : Bytes) where
  unfoldable pub spooled_as : PreparedSnapshot → SpooledManifest
  spooled_as prepared = record {
    machine = machine;
    sha = planned p machine;
    content = prepared.canonical;
  }

  pub take_manifest-agrees :
      (prepared : PreparedSnapshot) (d : Draft) (w : World) {d' : Draft} {v : World}
      → Returns (take_manifest p supported known d machine prepared) w d' v
      → (w ≡ v)
        × Returns (require_manifest_adapters supported prepared.manifest.adapters) w tt v
        × Returns (count_files known (delta_of d) prepared.manifest.files) w (delta_of d') v
        × (text_eq prepared.sha.value (planned p machine).value ≡ true)
        × (d'.spooled ≡ d.spooled ++ spooled_as prepared ∷ [])
  unfolding take_manifest spooled_as spool delta_of
  take_manifest-agrees prepared d w {d'} {v} h =
      let (_, u, e, h1) = >>=-Returns _ _ w h in
      let (same, h2) = raise_if-Returns _ _ _ u h1 in
      let (q, kept) = files-still known prepared.manifest.files _ u h2 in
      let r = require-still supported prepared.manifest.adapters w e in
      (
        r ∙ q,
        ends_at (require_manifest_adapters supported prepared.manifest.adapters) w q e,
        starts_at (count_files known (delta_of d) prepared.manifest.files) (sym r)
            (files-agree known prepared.manifest.files (spool d (spooled_as prepared)) u h2),
        not-false _ same,
        sym kept,
      )

module _ (x : Externals) (p : DownloadPlan) (materialised supported : Dict Bytes)
    (known : Known) where
  selected-agrees :
      (machine : Bytes) (prepared : PreparedSnapshot) (w : World) {u v : World}
      → Returns (selected_prepared_manifest x p machine) w prepared u
      → u ≡ v
      → Returns (selected_manifest x p machine) w prepared.manifest v
  unfolding selected_manifest pure
  selected-agrees machine prepared w e q =
      bind_known _ _ w e ∙ ap (λ z. (ok prepared.manifest, z)) q

  loop-agrees :
      (machines : List Bytes) (d : Draft) (w : World) {d' : Draft} {v : World}
      → Returns (prepare_loop x p materialised supported known d machines) w d' v
      → Returns (delta_loop x p materialised known (delta_of d) machines) w (delta_of d') v
        × Returns (adapters_loop x p materialised supported machines) w tt v
  unfolding prepare_loop delta_loop adapters_loop prepare_machine
  loop-agrees [] d w h = (pure_view delta_of d w h, pure_view (λ _. tt) d w h)
  loop-agrees (machine ∷ machines) d w {d'} {v} h =
      elim (Bool-cases (is_materialised materialised machine (planned p machine))) [
        | inl e ↦ rw e (loop-agrees machines d w (rw e at h))
        | inr e ↦
            let (d1, u, g, k) = >>=-Returns _ _ w (rw e at h) in
            let (prepared, u0, g1, g2) = >>=-Returns _ _ w g in
            let (q, ads, cnt, _, _) =
              take_manifest-agrees p supported known machine prepared d u0 g2 in
            let sel = selected-agrees machine prepared w g1 q in
            let (a, b) = loop-agrees machines d1 u k in
            (
              rw e (
                  bind_known _ _ w sel
                  ∙ bind_known _ _ u
                      (starts_at (count_files known (delta_of d) prepared.manifest.files) q cnt)
                  ∙ a),
              rw e (
                  bind_known _ _ w sel
                  ∙ bind_known _ _ u (
                      starts_at (require_manifest_adapters supported prepared.manifest.adapters) q
                        ads)
                  ∙ b),
            )
      ]

  -- The summary of a plan is that of the delta in its draft.
  summarised :
      (d : Draft) (w : World) {plan : MaterialisationPlan} {v : World}
      → Returns (pure (plan_of p d)) w plan v
      → Returns (pure (summary_of p (delta_of d))) w plan.summary v
  unfolding pure plan_of summary_of delta_of
  summarised d w h = pure_view (λ q. q.summary) (plan_of p d) w h

  -- When a materialisation plan is made, then `SummaryDelta` in the same world, with the same failures
  -- and the same acts of other processes, returns the summary that the plan has, and `RequireAdapters`
  -- passes; both leave the world that making the plan left.
  pub prepare_materialisation-summary_delta :
      (w v : World) (plan : MaterialisationPlan)
      → prepare_materialisation x p materialised supported known w ≡ (ok plan, v)
      → (summary_delta x p materialised known w ≡ (ok plan.summary, v))
        × (require_adapters x p materialised supported w ≡ (ok tt, v))
  unfolding prepare_materialisation summary_delta require_adapters delta_of no_delta
  prepare_materialisation-summary_delta w v plan h =
      let (d, u, e, k) = >>=-Returns _ _ w h in
      let (q, r) = pure-Returns _ u k in
      let (a, b) = loop-agrees (plan_machines p) _ w e in
      (
        bind_known _ _ w a ∙ summarised d u k,
        ends_at (adapters_loop x p materialised supported (plan_machines p)) w r b,
      )
