-- ===== src/Depot/Upload/Obtained.antt =====
-- How obtaining a blob changes the store, and how the plan counts it.
use aha.Prelude.{
  ℕ, suc, Bool, true, false, Option, none, some, Result, ok, err, ◌≡◌, ◌≢◌, refl, sym, ap, subst,
  ◌∙◌, err_not_ok, none_not_some, some_inj, Bool-cases, inl, inr, append-inj,
}
use aha.Text.{Bytes, contains, codes}
use aha.Depot.Keys.{blob_object_key}
use aha.Depot.Keys.Namespaces.{append_right_inj}
use aha.Depot.Store.{Objects, write, World, DepotError, pure, raise, put_if_absent}
use aha.Depot.Store.Laws.{write_other}
use aha.Depot.Store.Quiet.{quietly, exists_present, exists_absent, put_if_absent-quietly}
use aha.Depot.Store.Steps.{Returns, >>=-Returns, pure-Returns, or_raise-Returns, bind_known}
use aha.Depot.Codec.{Externals}
use aha.Depot.Init.{has_blob}
use aha.Depot.Machine.{
  BlobReceipt, BlobReceiptKind, created, existing, carried, ParentSnapshot, ensure_blob,
  carried_blob, receipt_kind,
}
use aha.Depot.Push.{BlobSource, Uploaded, count, from_source}
use aha.Depot.Upload.{UploadPlanSummary, count_present, count_blob}

pub true_not_false : true ≢ false
true_not_false h = cc

blob_object_key-inj : (j k : Bytes) → blob_object_key j ≡ blob_object_key k → j ≡ k
unfolding blob_object_key
blob_object_key-inj j k e =
    append_right_inj j k (codes ".zst")
      (append-inj (codes "blobs/v2/") (codes "blobs/v2/") refl e).1

-- The counts of an upload as those of a plan.
unfoldable pub as_summary : ℕ → Uploaded → UploadPlanSummary
as_summary n u = record {
  files = n;
  blobs_upload = u.uploaded;
  blobs_existing = u.existing_blobs;
  blobs_carried = u.carried_blobs;
}

count-carried :
    (q : BlobReceipt) (n : ℕ) (u : Uploaded)
    → q.kind ≡ carried
    → as_summary n (count q u) ≡ record (as_summary n u) { blobs_carried = suc u.carried_blobs }
unfolding count as_summary
count-carried q n u e = rw e refl

module _ (x : Externals) (source : BlobSource) where
  -- A receipt was counted as the plan counts the blob, and nothing but this blob was written.
  pub record Obtained (o₀ o : Objects) (q : Option BlobReceipt) (key : Bytes) (r : BlobReceipt)
      (v : World) : Type 0 where
    pub after : Objects
    pub left : v ≡ quietly after
    pub others : (k : Bytes) → k ≢ key → after (blob_object_key k) ≡ o (blob_object_key k)
    pub counted :
        (n : ℕ) (u : Uploaded)
        → Returns
            (count_blob x q key (as_summary n u))
            (quietly o₀)
            (as_summary n (count r u))
            (quietly o₀)

  kept-Obtained :
      (o₀ o : Objects) (key c : Bytes)
      → o₀ (blob_object_key key) ≡ some c
      → Obtained o₀ o none key (record { key = key; kind = existing }) (quietly o)
  unfolding count_blob has_blob count_present count as_summary pure
  kept-Obtained o₀ o key c e = record {
    after = o;
    left = refl;
    others = λ k n. refl;
    counted = λ n u.
        bind_known (has_blob x key) _ (quietly o₀) (exists_present (blob_object_key key) c o₀ e);
  }

  new-Obtained :
      (o₀ o : Objects) (key stored : Bytes)
      → o₀ (blob_object_key key) ≡ none
      → Obtained o₀ o none key
          (record { key = key; kind = created })
          (quietly (write o (blob_object_key key) stored))
  unfolding count_blob has_blob count_present count as_summary pure
  new-Obtained o₀ o key stored e = record {
    after = write o (blob_object_key key) stored;
    left = refl;
    others = λ k n. write_other o _ stored _ (λ q. n (sym (blob_object_key-inj key k q)));
    counted = λ n u.
        bind_known (has_blob x key) _ (quietly o₀) (exists_absent (blob_object_key key) o₀ e);
  }

  put-Obtained :
      (o₀ o : Objects) (key stored : Bytes) (is_new : Bool) (v : World)
      → o (blob_object_key key) ≡ o₀ (blob_object_key key)
      → Returns (put_if_absent (blob_object_key key) stored) (quietly o) is_new v
      → Obtained o₀ o none key (record { key = key; kind = receipt_kind x is_new }) v
  unfolding receipt_kind
  put-Obtained o₀ o key stored is_new v same h =
      elim (put_if_absent-quietly (blob_object_key key) stored o) [
        | inl (c, e, run) ↦
            subst (λ p. Obtained o₀ o none key (record { key = key; kind = kind_of p.0 }) p.1)
              (sym run ∙ h) (kept-Obtained o₀ o key c (sym same ∙ e))
        | inr (e, run) ↦
            subst (λ p. Obtained o₀ o none key (record { key = key; kind = kind_of p.0 }) p.1)
              (sym run ∙ h) (new-Obtained o₀ o key stored (sym same ∙ e))
      ]
    where
      kind_of : Result DepotError Bool → BlobReceiptKind
      kind_of (ok b) = receipt_kind x b
      kind_of (err e) = carried

  source-Obtained :
      (o₀ o : Objects) (key : Bytes) (c : Option Bytes) (r : BlobReceipt) (v : World)
      → o (blob_object_key key) ≡ o₀ (blob_object_key key)
      → Returns
          (elim c [ none ↦ raise DepotError.source_failed | some b ↦ ensure_blob x key b ])
          (quietly o)
          r
          v
      → Obtained o₀ o none key r v
  unfolding ensure_blob raise
  source-Obtained o₀ o key none r v same h = absurd (err_not_ok (ap (λ p. p.0) h))
  source-Obtained o₀ o key (some content) r v same h =
      let (stored, _, h1) = or_raise-Returns _ _ _ (quietly o) h in
      let (is_new, u, h2, h3) = >>=-Returns _ _ (quietly o) h1 in
      let (made, last) = pure-Returns _ u h3 in
      let got = put-Obtained o₀ o key stored is_new u same h2 in
      subst (λ z. Obtained o₀ o none key r z) last
        (subst (λ z. Obtained o₀ o none key z u) made got)

  pub carried-Obtained :
      (o₀ o : Objects) (key : Bytes)
      → (rest : Option BlobReceipt) → (r : BlobReceipt) (v : World)
      → ((q : BlobReceipt) → rest ≡ some q → q.kind ≡ carried)
      → o (blob_object_key key) ≡ o₀ (blob_object_key key)
      → Returns (elim rest [ none ↦ from_source x source key | some q ↦ pure q ]) (quietly o) r v
      → Obtained o₀ o rest key r v
  unfolding from_source count_blob as_summary pure
  carried-Obtained o₀ o key none r v k same h = source-Obtained o₀ o key (source key) r v same h
  carried-Obtained o₀ o key (some q) r v k same h =
      let (made, last) = pure-Returns q (quietly o) h in
      subst (λ z. Obtained o₀ o (some q) key r z) last
        (subst (λ z. Obtained o₀ o (some q) key z (quietly o)) made
          (record {
            after = o;
            left = refl;
            others = λ j n. refl;
            counted = λ n u. ap (λ z. (ok z, quietly o₀)) (sym (count-carried q n u (k q refl)));
          }))

  pub carried_blob-kind :
      (p : Option ParentSnapshot) (key : Bytes) (q : BlobReceipt)
      → carried_blob x p key ≡ some q
      → q.kind ≡ carried
  unfolding carried_blob
  carried_blob-kind none key q e = absurd (none_not_some e)
  carried_blob-kind (some p) key q e = elim (Bool-cases (contains p.blobs key)) [
    | inl g ↦ ap BlobReceipt.kind (some_inj (sym (rw g at e)))
    | inr g ↦ absurd (none_not_some (rw g at e))
  ]
