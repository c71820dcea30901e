-- ===== src/Depot/Verify/Sound.antt =====
-- The audit of one manifest in a world that nobody changes: it returns, and it adds no problem exactly
-- when the manifest and its blobs are there.
use aha.Depot.Keys.{blob_object_key}
use aha.Prelude.{
  suc, ok_inj, err_not_ok, Bool, true, false, List, [], ◌∷◌, some, Result, ok, err, ◌≡◌, refl, sym,
  ap, subst, ◌∙◌, Bool-cases, inl, inr, All,
}
use aha.Text.{Bytes, text_eq, text_eq_iff, contains}
use aha.Model.Identity.{IdentityError, Sha256Hex, parse_sha256_hex}
use aha.Model.Snapshot.Files.{ManifestFile, SnapshotManifest}
use aha.Model.Snapshot.Codec.{ManifestSha256}
use aha.Depot.Store.{Depot, Objects, DepotError, pure}
use aha.Depot.Store.Quiet.{quietly, exists-quietly}
use aha.Depot.Store.Reads.{manifest-Reads, value, read_attempt, open_blob-Reads, has_blob-Reads}
use aha.Depot.Codec.{Externals}
use aha.Depot.Machine.{latest, manifest}
use aha.Depot.Init.{open_blob, has_blob}
use aha.Depot.Verify.{
  after_manifest, check_manifest, Audit, after_open, after_exists, probe_blob, after_key,
  check_file, check_files,
}
use aha.Depot.Verify.Verdict.{
  BlobOk, Verdict, both, problem-Verdict, pass-Verdict, as_Verdict, unless_cancelled-Verdict,
}

pub All-map :
    {A : Type 0} {P Q : A → Type 0} (k : (a : A) → P a → Q a) (xs : List A) → All P xs → All Q xs
All-map k [] h = tt
All-map k (a ∷ xs) (p, h) = (k a p, All-map k xs h)

module _ (x : Externals) (deep : Bool) (o : Objects) where
  -- A part that adds a problem exactly unless `Q`.
  abbrev pub Judges : (a : Audit) → Depot Audit → Type 0 → Type 0
  Judges a m Q = Verdict x deep o a m Q Q

  abbrev pub FileOk : ManifestFile → Type 0
  FileOk f = (s : Sha256Hex) × (parse_sha256_hex f.sha256 ≡ ok s) × BlobOk x deep o deep f.sha256

  abbrev pub ManifestOk : Bytes → ManifestSha256 → Type 0
  ManifestOk machine sha =
      (m : SnapshotManifest) × (value (manifest x machine sha) o ≡ ok m) × All FileOk m.files

  abbrev pub MachineOk : Bytes → Type 0
  MachineOk machine =
      (sha : ManifestSha256) × (value (latest x machine) o ≡ ok (some sha)) × ManifestOk machine sha

  -- The blob is entered as checked, and then looked at.
  abbrev entered : Bytes → Audit → Audit
  entered key a = record a { checked_blobs = key ∷ a.checked_blobs }

  found-Verdict :
      (a : Audit) (key : Bytes)
      → BlobOk x deep o deep key
      → Judges a (pure (entered key a)) (BlobOk x deep o deep key)
  unfolding pure
  found-Verdict a key b = record {
    result = entered key a;
    runs = refl;
    clean = λ c e. (b, c e);
    sound = λ c e. (e, b);
    complete = λ e q. e;
  }

  has_blob-value : (key : Bytes) → (b : Bool) × (value (has_blob x key) o ≡ ok b)
  unfolding has_blob
  has_blob-value key = let (b, e) = exists-quietly (blob_object_key key) o in (b, ap (λ p. p.0) e)

  exists-Verdict :
      (machine key : Bytes) (a : Audit) (b : Bool)
      → deep ≡ false
      → value (has_blob x key) o ≡ ok b
      → Judges a
          (after_exists x machine (entered key a) (ok b))
          (value (has_blob x key) o ≡ ok true)
  unfolding after_exists
  exists-Verdict machine key a true d h =
      as_Verdict x deep o a _ _ refl (λ q. h) (λ q. rw d h) (found-Verdict a key (rw d h))
  exists-Verdict machine key a false d h =
      problem-Verdict x deep o a (entered key a) _ _ _
        (λ e. let c : ◌≡◌ {A = Result DepotError Bool} (ok false) (ok true) = sym h ∙ e in cc)

  open-Verdict :
      (machine key : Bytes) (a : Audit) (r : Result DepotError Bytes)
      → deep ≡ true
      → value (open_blob x key) o ≡ r
      → Judges a
          (after_open x machine (entered key a) r)
          ((content : Bytes) × (value (open_blob x key) o ≡ ok content))
  unfolding after_open
  open-Verdict machine key a (ok content) d h =
      as_Verdict x deep o a _ _ refl (λ q. (content, h)) (λ q. rw d (content, h))
        (found-Verdict a key (rw d (content, h)))
  open-Verdict machine key a (err e) d h =
      unless_cancelled-Verdict x deep o a (entered key a) _ _ _ (λ (content, g).
        let c : ◌≡◌ {A = Result DepotError Bytes} (err e) (ok content) = sym h ∙ g in cc)

  probe-Verdict :
      (machine key : Bytes) (a : Audit) (d : Bool)
      → deep ≡ d
      → Judges a (probe_blob x d machine key (entered key a)) (BlobOk x deep o d key)
  unfolding probe_blob
  probe-Verdict machine key a true d =
      as_Verdict x deep o a _ _ (read_attempt (open_blob x key) _ o (open_blob-Reads x key))
        (λ q. q) (λ q. q) (open-Verdict machine key a _ d refl)
  probe-Verdict machine key a false d =
      let (b, h) = has_blob-value key in
      as_Verdict x deep o a _ (after_exists x machine (entered key a) (ok b))
        (read_attempt (has_blob x key) _ o (has_blob-Reads x key)
          ∙ ap (λ r. after_exists x machine (entered key a) r (quietly o)) h)
        (λ q. q) (λ q. q) (exists-Verdict machine key a b d h)

  All-contains :
      (P : Bytes → Type 0) (ks : List Bytes) (k : Bytes) → contains ks k ≡ true → All P ks → P k
  unfolding contains
  All-contains P [] k h g = absurd (cc)
  All-contains P (j ∷ ks) k h (p, g) = elim (Bool-cases (text_eq j k)) [
    | inl e ↦ subst P ((text_eq_iff j k).0 e) p
    | inr e ↦ All-contains P ks k (rw e at h) g
  ]

  key-Verdict :
      (machine key : Bytes) (a : Audit) (r : Result IdentityError Sha256Hex)
      → Judges a
          (after_key x deep machine key a r)
          ((s : Sha256Hex) × (r ≡ ok s) × BlobOk x deep o deep key)
  unfolding after_key
  key-Verdict machine key a (err e) = problem-Verdict x deep o a a _ _ _ (λ (s, q, _). cc)
  key-Verdict machine key a (ok s) = elim (Bool-cases (contains a.checked_blobs key)) [
    | inl e ↦ rw e (
        pass-Verdict x deep o a _ _
          (λ c q. (s, refl, All-contains (BlobOk x deep o deep) a.checked_blobs key e (c q))))
    | inr e ↦ rw e (
        as_Verdict x deep o a _ _ refl (λ q. (s, refl, q)) (λ q. q.2)
          (probe-Verdict machine key a deep refl))
  ]

  files-Verdict :
      (machine : Bytes) (fs : List ManifestFile) (a : Audit)
      → Judges a (check_files x deep machine a fs) (All FileOk fs)
  unfolding check_files check_file
  files-Verdict machine [] a = pass-Verdict x deep o a _ _ (λ c q. tt)
  files-Verdict machine (f ∷ fs) a =
      both x deep o a _ _ (key-Verdict machine f.sha256 a (parse_sha256_hex f.sha256))
        (files-Verdict machine fs)

  fetched-Verdict :
      (machine : Bytes) (sha : ManifestSha256) (a : Audit) (r : Result DepotError SnapshotManifest)
      → value (manifest x machine sha) o ≡ r
      → Judges a (after_manifest x deep machine a r) (ManifestOk machine sha)
  unfolding after_manifest
  fetched-Verdict machine sha a (err e) h =
      unless_cancelled-Verdict x deep o a a _ _ _ (λ (m, g, _). err_not_ok (sym h ∙ g))
  fetched-Verdict machine sha a (ok m) h =
      let v = files-Verdict machine m.files (record a { manifests = suc a.manifests }) in
      record {
        result = v.result;
        runs = v.runs;
        clean = v.clean;
        sound = λ c e. let (e1, q) = v.sound c e in (e1, (m, h, q));
        complete =
            λ e (m', g, q). v.complete e (subst (λ n. All FileOk n.files) (ok_inj (sym g ∙ h)) q);
      }

  pub manifest-Verdict :
      (machine : Bytes) (sha : ManifestSha256) (a b : Audit)
      → b.problems ≡ a.problems
      → b.checked_blobs ≡ a.checked_blobs
      → Judges a (check_manifest x deep machine sha b) (ManifestOk machine sha)
  unfolding check_manifest
  manifest-Verdict machine sha a b p c =
      let v = fetched-Verdict machine sha b _ refl in
      record {
        result = v.result;
        runs = read_attempt (manifest x machine sha) _ o (manifest-Reads x machine sha) ∙ v.runs;
        clean = λ k. v.clean (λ e. rw c (k (sym p ∙ e)));
        sound = λ k e. let (e1, q) = v.sound (λ e. rw c (k (sym p ∙ e))) e in (sym p ∙ e1, q);
        complete = λ e q. v.complete (p ∙ e) q;
      }
