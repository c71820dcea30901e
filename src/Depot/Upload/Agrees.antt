-- ===== src/Depot/Upload/Agrees.antt =====
-- What `PlanUpload` counts is what the push then does, when nobody changes the Archive meanwhile.
use aha.Prelude.{
  ℕ, false, List, [], ◌∷◌, Option, none, some, ok, ◌≡◌, ◌≢◌, refl, sym, ap, subst, ◌∙◌, Bool-cases,
  inl, inr, length,
}
use aha.Text.{Bytes, text_eq, text_eq_iff, contains}
use aha.Model.Snapshot.Files.{ManifestFile, SnapshotManifest}
use aha.Model.Snapshot.Codec.{ManifestSha256}
use aha.Depot.Keys.{blob_object_key}
use aha.Depot.Store.{Objects, World, pure}
use aha.Depot.Store.Quiet.{quietly}
use aha.Depot.Store.Steps.{
  raise_if_passes, or_raise_passes, Returns, starts_at, >>=-Returns, pure-Returns, raise_if-Returns,
  or_raise-Returns, bind_known,
}
use aha.Depot.Store.Reads.{
  Reads, >>=-Reads, or_raise-Reads, parent-Reads, read_bind, pure-Reads, read_Returns,
}
use aha.Depot.Codec.{Externals}
use aha.Depot.Machine.{ParentSnapshot, parent, carried_blob}
use aha.Depot.Push.{
  PushResult, BlobSource, Uploaded, count, obtain, upload, push, upload_and_publish, against_parent,
  reuse, is_unchanged,
}
use aha.Depot.Prepare.{PreparedUpload}
use aha.Depot.Upload.{UploadPlanSummary, count_blob, count_uploads, plan_upload, execute}
use aha.Depot.Upload.Obtained.{true_not_false, as_summary, carried-Obtained, carried_blob-kind}

module _ (x : Externals) (source : BlobSource) where
  -- What has not been handled yet is as it was.
  Untouched : Objects → Objects → List Bytes → Type 0
  Untouched o₀ o seen =
      (k : Bytes) → contains seen k ≡ false → o (blob_object_key k) ≡ o₀ (blob_object_key k)

  Untouched-next :
      (o₀ o o' : Objects) (seen : List Bytes) (key : Bytes)
      → Untouched o₀ o seen
      → ((k : Bytes) → k ≢ key → o' (blob_object_key k) ≡ o (blob_object_key k))
      → Untouched o₀ o' (key ∷ seen)
  unfolding contains Untouched
  Untouched-next o₀ o o' seen key h k j n = elim (Bool-cases (text_eq key j)) [
    | inl g ↦ absurd (true_not_false (rw g at n))
    | inr g ↦ k j (λ q. true_not_false (sym ((text_eq_iff key j).1 (sym q)) ∙ g)) ∙ h j (rw g at n)
  ]

  upload-agrees :
      (o₀ : Objects) (p : Option ParentSnapshot) (n : ℕ) (fs : List ManifestFile) (o : Objects)
      (seen : List Bytes) (u u' : Uploaded) (v : World)
      → Untouched o₀ o seen
      → Returns (upload x source p seen u fs) (quietly o) u' v
      → Returns
          (count_uploads x p seen (as_summary n u) fs)
          (quietly o₀)
          (as_summary n u')
          (quietly o₀)
  unfolding upload count_uploads obtain pure Untouched
  upload-agrees o₀ p n [] o seen u u' v t h =
      ap (λ z. (ok (as_summary n z), quietly o₀)) (pure-Returns u (quietly o) h).0
  upload-agrees o₀ p n (f ∷ fs) o seen u u' v t h = elim (Bool-cases (contains seen f.sha256)) [
    | inl g ↦ rw g (upload-agrees o₀ p n fs o seen u u' v t (rw g at h))
    | inr g ↦
        let (s, e, h1) = or_raise-Returns _ _ _ (quietly o) (rw g at h) in
        let (r, w, h2, h3) = >>=-Returns _ _ (quietly o) h1 in
        let got =
          carried-Obtained x source o₀ o f.sha256 (carried_blob x p f.sha256) r w
            (carried_blob-kind x source p f.sha256) (t f.sha256 g) h2 in
        let step = count_blob x (carried_blob x p f.sha256) f.sha256 (as_summary n u) in
        rw g (
          or_raise_passes _ _ _ (quietly o₀) e
          ∙ bind_known step _ (quietly o₀) (got.counted n u)
          ∙ upload-agrees o₀ p n fs got.after (f.sha256 ∷ seen) (count r u) u' v
              (Untouched-next o₀ o got.after seen f.sha256 t got.others)
              (starts_at (upload x source p (f.sha256 ∷ seen) (count r u) fs) got.left h3))
  ]

  -- The counts that a push reports.
  counts_of : PushResult → UploadPlanSummary
  counts_of r = record {
    files = r.files;
    blobs_upload = r.blobs_uploaded;
    blobs_existing = r.blobs_existing;
    blobs_carried = r.blobs_carried;
  }

  module _ (m : SnapshotManifest) where
    abbrev none_counted : UploadPlanSummary
    none_counted = record {
      files = length m.files;
      blobs_upload = 0;
      blobs_existing = 0;
      blobs_carried = 0;
    }

    published-agrees :
        (sha : ManifestSha256) (p : Option ParentSnapshot) (o : Objects) (r : PushResult)
        (v : World)
        → Returns (upload_and_publish x source m sha p) (quietly o) r v
        → Returns (count_uploads x p [] none_counted m.files) (quietly o) (counts_of r) (quietly o)
    unfolding upload_and_publish counts_of as_summary Untouched
    published-agrees sha p o r v h =
        let (u, w, h1, h2) = >>=-Returns _ _ (quietly o) h in
        let (published, w1, _, h3) = >>=-Returns _ _ w h2 in
        let (_, w2, _, h4) = >>=-Returns _ _ w1 h3 in
        let (made, _) = pure-Returns _ w2 h4 in
        subst
          (λ z.
            Returns (count_uploads x p [] none_counted m.files) (quietly o) (counts_of z)
              (quietly o))
          made (upload-agrees o p (length m.files) m.files o [] _ u w (λ k n. refl) h1)

    is_unchanged-Reads : (p : ParentSnapshot) → Reads (is_unchanged x source p m)
    unfolding is_unchanged
    is_unchanged-Reads p =
        >>=-Reads _ _ (or_raise-Reads _ _)
          (λ a. >>=-Reads _ _ (or_raise-Reads _ _) (λ b. pure-Reads _))

    reuse-reuses :
        (p : ParentSnapshot) (o : Objects) (r : PushResult) (v : World)
        → Returns (reuse x source m p) (quietly o) r v
        → r.reused ≢ false
    unfolding reuse
    reuse-reuses p o r v h e =
        let (_, w, _, h1) = >>=-Returns _ _ (quietly o) h in
        true_not_false (ap PushResult.reused (pure-Returns _ w h1).0 ∙ e)

    against-agrees :
        (sha : ManifestSha256) (p : Option ParentSnapshot) (o : Objects) (r : PushResult)
        (v : World)
        → Returns (against_parent x source m sha p) (quietly o) r v
        → r.reused ≡ false
        → Returns (count_uploads x p [] none_counted m.files) (quietly o) (counts_of r) (quietly o)
    unfolding against_parent
    against-agrees sha none o r v h e = published-agrees sha none o r v h
    against-agrees sha (some p) o r v h e =
        let (same, w, h1, h2) = >>=-Returns _ _ (quietly o) h in
        let (_, still) = read_Returns (is_unchanged x source p m) o (is_unchanged-Reads p) h1 in
        elim (Bool-cases same) [
          | inl g ↦
              absurd (reuse-reuses p o r v (starts_at (reuse x source m p) still (rw g at h2)) e)
          | inr g ↦
              published-agrees sha (some p) o r v
                (starts_at (upload_and_publish x source m sha (some p)) still (rw g at h2))
        ]

    -- Where nobody changes the Archive meanwhile: when `Execute` of a prepared capability returns a
    -- result that is not a reuse of the parent, then `PlanUpload` with the same capability and manifest
    -- returns, before the push, the counts of files and of uploaded, existing and carried blobs that
    -- the result has, and it changes nothing.
    pub execute-plan_upload :
        (p : PreparedUpload) (o : Objects) (r : PushResult) (v : World)
        → execute x p m source (quietly o) ≡ (ok r, v)
        → r.reused ≡ false
        → plan_upload x p m (quietly o) ≡ (
          ok (record {
            files = r.files;
            blobs_upload = r.blobs_uploaded;
            blobs_existing = r.blobs_existing;
            blobs_carried = r.blobs_carried;
          }),
          quietly o,
        )
    unfolding execute push plan_upload counts_of
    execute-plan_upload p o r v h e =
        let (able, h1) = raise_if-Returns _ _ _ (quietly o) h in
        let ((b, sha), enc, h2) = or_raise-Returns _ _ _ (quietly o) h1 in
        let (id, named, h3) = or_raise-Returns _ _ _ (quietly o) h2 in
        let (q, w, h4, h5) = >>=-Returns _ _ (quietly o) h3 in
        let (found, same) =
          read_Returns (parent x m.machine_id) o (parent-Reads x m.machine_id) h4 in
        let (wanted, h6) = raise_if-Returns _ _ _ w h5 in
        let counted =
          against-agrees sha q o r v (starts_at (against_parent x source m sha q) same h6) e in
        raise_if_passes _ _ _ (quietly o) able
        ∙ or_raise_passes _ _ _ (quietly o) enc
        ∙ or_raise_passes _ _ _ (quietly o) named
        ∙ read_bind (parent x m.machine_id) _ o (parent-Reads x m.machine_id) found
        ∙ raise_if_passes _ _ _ (quietly o) wanted
        ∙ counted
