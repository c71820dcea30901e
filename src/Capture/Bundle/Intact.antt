-- ===== src/Capture/Bundle/Intact.antt =====
-- Reading a bundle to its end shows the callback every file of the manifest, and nothing else, with
-- the bytes that the manifest names.
use aha.Prelude.{
  ℕ, zero, suc, get_elem?, ◌⊎◌, Bool, true, false, not, List, [], ◌∷◌, none, some, Result, ok,
  >>=-eq-ok, fail_if-eq-ok, >>-eq-ok, ok_inj, none_not_some, some_inj, ◌≡◌, refl, sym, ap, ◌∙◌,
  arith, if◌then◌else◌, Bool-cases, inl, inr, All,
}
use aha.Text.{Bytes, text_eq, text_eq_iff, text_eq_refl, contains}
use aha.Text.Dict.{Dict, get, put, has, get-put}
use aha.Encoding.Hex
use aha.Model.Snapshot.Files.{ManifestFile}
use aha.Capture.Bundle.{
  BundleError, Manifest, TarEntry, TarFile, index_files, walk_entries, is_done, walk_tar_zstd,
}
use aha.Capture.Bundle.Visits.{
  entries_of, data_entries, called, IsIntact, names, IsOnce, entries-Visits,
}

has-get : (d : Dict ManifestFile) (k : Bytes) → has d k ≡ false → get d k ≡ none
unfolding has get
has-get [] k h = refl
has-get ((j, v) ∷ d) k h = ground (arith, has-get d k)

-- A file of the manifest under its own path.
abbrev pub IsFileAt : List ManifestFile → Bytes → ManifestFile → Type 0
IsFileAt fs k f = (i : ℕ) × (get_elem? fs i ≡ some f) × (f.relative_path ≡ k)

-- The map has what it had, and each file under its path, and nothing else.
record Indexed (d d' : Dict ManifestFile) (fs : List ManifestFile) : Type 0 where
  keeps : (k : Bytes) (f : ManifestFile) → get d k ≡ some f → get d' k ≡ some f
  holds : All (λ f. get d' f.relative_path ≡ some f) fs
  only : (k : Bytes) (f : ManifestFile) → get d' k ≡ some f → (get d k ≡ some f) ⊎ IsFileAt fs k f

index_files-Indexed :
    (fs : List ManifestFile) (d d' : Dict ManifestFile) → index_files d fs ≡ ok d' → Indexed d d' fs
unfolding index_files
index_files-Indexed [] d d' h =
    let e = ok_inj h in
    record {
      keeps = λ k f g. ap (λ c. get c k) (sym e) ∙ g;
      holds = tt;
      only = λ k f g. inl (ap (λ c. get c k) e ∙ g);
    }
index_files-Indexed (f ∷ fs) d d' h =
    let (_, h1) = >>-eq-ok _ _ h in
    let (fresh, h2) = fail_if-eq-ok _ _ _ h1 in
    let r = index_files-Indexed fs (put d f.relative_path f) d' h2 in
    record {
      keeps = λ k g e. r.keeps k g (
          ground (
            arith,
            get-put d f.relative_path f k,
            has-get d f.relative_path fresh,
            text_eq_iff f.relative_path k,
            e,
          ));
      holds = (
        r.keeps f.relative_path f (
            ground
              (arith, get-put d f.relative_path f f.relative_path, text_eq_refl f.relative_path)),
        r.holds,
      );
      only = λ k g e. from k g (r.only k g e);
    }
  where
    from :
        (k : Bytes) (g : ManifestFile)
        → (get (put d f.relative_path f) k ≡ some g) ⊎ IsFileAt fs k g
        → (get d k ≡ some g) ⊎ IsFileAt (f ∷ fs) k g
    from k g (inr (i, e, p)) = inr (suc i, e, p)
    from k g (inl e) = elim (Bool-cases (text_eq f.relative_path k)) [
      | inl q ↦
          let same = rw q at (get-put d f.relative_path f k) in
          let eq = some_inj (sym same ∙ e) in
          inr (
            zero,
            ap some eq,
            sym (ap ManifestFile.relative_path eq) ∙ (text_eq_iff f.relative_path k).0 q,
          )
      | inr q ↦ inl (sym (rw q at (get-put d f.relative_path f k)) ∙ e)
    ]

module _ (sha256 : Bytes → Bytes) {S : Type 0}
    (fn : ManifestFile → Bytes → S → Result BundleError S) where
  -- An entry that was read for a file: it lies at the file's path, with the file's size and hash.
  pub record IsRead (fs : List ManifestFile) (v : ManifestFile × TarEntry) : Type 0 where
    pub is_file : IsFileAt fs v.1.name v.0
    pub same_size : v.1.size ≡ v.0.bytes
    pub same_sha : Hex.encode (sha256 v.1.content) ≡ v.0.sha256

  every_visit :
      (fs : List ManifestFile) (d : Dict ManifestFile) (vs : List (ManifestFile × TarEntry))
      → Indexed [] d fs
      → All (IsIntact sha256 fn d) vs
      → All (IsRead fs) vs
  unfolding get
  every_visit fs d [] r h = tt
  every_visit fs d (v ∷ vs) r (i, h) = (
    record {
      is_file = listed (r.only v.1.name v.0 i.is_listed);
      same_size = i.same_size;
      same_sha = i.same_sha;
    },
    every_visit fs d vs r h,
  )
    where
      listed : (get [] v.1.name ≡ some v.0) ⊎ IsFileAt fs v.1.name v.0 → IsFileAt fs v.1.name v.0
      listed (inl e) = absurd (none_not_some e)
      listed (inr p) = p

  every_named :
      (fs : List ManifestFile) (d d' : Dict ManifestFile) (ns : List Bytes)
      → is_done sha256 fn d' ≡ true
      → ((k : Bytes) → get d' k ≡ (if contains ns k then none else get d k))
      → All (λ f. get d f.relative_path ≡ some f) fs
      → All (λ f. contains ns f.relative_path ≡ true) fs
  unfolding is_done get
  every_named [] d d' ns e left h = tt
  every_named (f ∷ fs) d (x ∷ d') ns e left h = absurd (cc)
  every_named (f ∷ fs) d [] ns e left (g, h) = (
    elim (Bool-cases (contains ns f.relative_path)) [
      | inl q ↦ q
      | inr q ↦ absurd (none_not_some (rw q at (left f.relative_path) ∙ g))
    ],
    every_named fs d [] ns e left h,
  )

  -- When `walkTarZstd` returns a state, the file was whole, and the callback was called in turn, from
  -- the first state to that one, on files of the manifest, with the bytes of the entries of the file
  -- in their order, all but the manifest and the checksums; each entry is at its file's path, with the
  -- file's size and SHA-256; no path was read twice, and every file of the manifest was read.
  pub walk_tar_zstd-IsRead :
      (file : TarFile) (m : Manifest) (s s' : S)
      → walk_tar_zstd sha256 fn file m s ≡ ok s'
      → (file.is_whole ≡ true)
        × (visits : List (ManifestFile × TarEntry)) × (called sha256 fn visits s ≡ ok s')
        × (entries_of sha256 fn visits ≡ data_entries file.entries)
        × All (IsRead m.files) visits
        × IsOnce sha256 fn (names sha256 fn visits)
        × All (λ f. contains (names sha256 fn visits) f.relative_path ≡ true) m.files
  unfolding walk_tar_zstd
  walk_tar_zstd-IsRead file m s s' h =
      let (d, e, h1) = >>=-eq-ok (index_files [] m.files) _ h in
      let (w, g, h2) = >>=-eq-ok (walk_entries sha256 fn _ file.entries) _ h1 in
      let (whole, h3) = fail_if-eq-ok _ _ _ h2 in
      let (done, h4) = fail_if-eq-ok _ _ _ h3 in
      let r = index_files-Indexed m.files [] d e in
      let v = entries-Visits sha256 fn file.entries _ w g in
      (
        not_false _ whole,
        v.visits,
        v.calls ∙ h4,
        v.whole,
        every_visit m.files d v.visits r v.intact,
        v.once,
        every_named m.files d w.files _ (not_false _ done) v.left r.holds,
      )
    where
      not_false : (b : Bool) → not b ≡ false → b ≡ true
      not_false b k = ground arith
