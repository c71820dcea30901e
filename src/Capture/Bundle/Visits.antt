-- ===== src/Capture/Bundle/Visits.antt =====
-- What each entry of a bundle comes to: it is passed over, or it is a visit of a file that the manifest
-- lists, with the file's size and hash.
use aha.Prelude.{
  Bool, true, false, not, ◌&&◌, List, [], ◌∷◌, Option, none, some, Result, ok, ◌>>=◌, >>=-eq-ok,
  fail_if-eq-ok, >>-eq-ok, ok_inj, err_not_ok, none_not_some, ◌≡◌, refl, sym, ap, subst, ◌∙◌, arith,
  if◌then◌else◌, Bool-cases, inl, inr, All,
}
use aha.Prelude.Int.{int_eq_iff}
use aha.Text.{Bytes, text_eq, text_eq_iff, contains}
use aha.Text.Dict.{Dict, get, delete, get-delete}
use aha.Encoding.Hex
use aha.Model.Snapshot.Files.{ManifestFile}
use aha.Capture.Bundle.{
  BundleError, TarEntry, Walk, check_header, walk_file, walk_named, walk_entry, walk_entries,
  manifest_name, checksums_name,
}

-- The entries of a file's contents: all but the manifest and the checksums.
abbrev pub is_data : TarEntry → Bool
is_data h = not (text_eq h.name manifest_name) && not (text_eq h.name checksums_name)

abbrev pub data_entries : List TarEntry → List TarEntry
data_entries [] = []
data_entries (h ∷ hs) = if is_data h then h ∷ data_entries hs else data_entries hs

module _ (sha256 : Bytes → Bytes) {S : Type 0}
    (fn : ManifestFile → Bytes → S → Result BundleError S) where
  -- A file of the manifest with the entry that was read for it.
  abbrev pub Visit : Type 0
  Visit = ManifestFile × TarEntry

  -- The calls of the callback, in order.
  abbrev pub called : List Visit → S → Result BundleError S
  called [] s = ok s
  called ((f, h) ∷ vs) s = fn f h.content s >>= called vs

  pub record IsIntact (d : Dict ManifestFile) (v : Visit) : Type 0 where
    pub is_listed : get d v.1.name ≡ some v.0
    pub same_size : v.1.size ≡ v.0.bytes
    pub same_sha : Hex.encode (sha256 v.1.content) ≡ v.0.sha256

  abbrev pub names : List Visit → List Bytes
  names [] = []
  names ((f, h) ∷ vs) = h.name ∷ names vs

  abbrev pub entries_of : List Visit → List TarEntry
  entries_of [] = []
  entries_of ((f, h) ∷ vs) = h ∷ entries_of vs

  file-Visits :
      (w w' : Walk S) (h : TarEntry) (q : Option ManifestFile)
      → get w.files h.name ≡ q
      → walk_file sha256 fn w h q ≡ ok w'
      → (f : ManifestFile) × IsIntact w.files (f, h)
        × (fn f h.content w.state ≡ ok w'.state)
        × (w'.files ≡ delete w.files h.name)
  unfolding walk_file
  file-Visits w w' h none e k = absurd (err_not_ok k)
  file-Visits w w' h (some f) e k =
      let (size, k1) = fail_if-eq-ok _ _ _ k in
      let (s, called, k2) = >>=-eq-ok (fn f h.content w.state) _ k1 in
      let (sha, k3) = fail_if-eq-ok _ _ _ k2 in
      let done = ok_inj k3 in
      (
        f,
        record {
          is_listed = e;
          same_size = (int_eq_iff h.size f.bytes).0 (not_false _ size);
          same_sha = (text_eq_iff _ _).0 (not_false _ sha);
        },
        called ∙ ap (λ (z : Walk S). ok z.state) done,
        sym (ap Walk.files done),
      )
    where
      not_false : (b : Bool) → not b ≡ false → b ≡ true
      not_false b g = ground arith

  -- An entry is passed over, or a file of the manifest is visited.
  data Step (w w' : Walk S) (h : TarEntry) : Type 0 where
    passed : is_data h ≡ false → w'.files ≡ w.files → w'.state ≡ w.state → Step w w' h
    visited :
        (f : ManifestFile)
        → is_data h ≡ true
        → IsIntact w.files (f, h)
        → fn f h.content w.state ≡ ok w'.state
        → w'.files ≡ delete w.files h.name
        → Step w w' h

  entry-Step : (w w' : Walk S) (h : TarEntry) → walk_entry sha256 fn w h ≡ ok w' → Step w w' h
  unfolding walk_entry walk_named
  entry-Step w w' h k =
      let (_, k1) = >>-eq-ok (check_header w h) _ k in
      elim (Bool-cases (text_eq h.name manifest_name)) [
        | inl e ↦
            let (_, k2) = fail_if-eq-ok _ _ _ (rw e at k1) in
            passed (rw e refl) (sym (ap Walk.files (ok_inj k2))) (sym (ap Walk.state (ok_inj k2)))
        | inr e ↦ elim (Bool-cases (text_eq h.name checksums_name)) [
          | inl g ↦
              let (_, k2) = fail_if-eq-ok _ _ _ (rw (e, g) at k1) in
              passed (rw (e, g) refl) (sym (ap Walk.files (ok_inj k2)))
                (sym (ap Walk.state (ok_inj k2)))
          | inr g ↦
              let (f, intact, run, rest) = file-Visits _ w' h _ refl (rw (e, g) at k1) in
              visited f (rw (e, g) refl)
                (record {
                  is_listed = intact.is_listed;
                  same_size = intact.same_size;
                  same_sha = intact.same_sha;
                })
                run rest
        ]
      ]

  -- No name stands twice.
  abbrev pub IsOnce : List Bytes → Type 0
  IsOnce [] = Unit {0}
  IsOnce (n ∷ ns) = (contains ns n ≡ false) × IsOnce ns

  -- What the entries came to: the visits, and the files that are left.
  pub record Visits (hs : List TarEntry) (w w' : Walk S) : Type 0 where
    pub visits : List Visit
    pub whole : entries_of visits ≡ data_entries hs
    pub calls : called visits w.state ≡ ok w'.state
    pub intact : All (IsIntact w.files) visits
    pub once : IsOnce (names visits)
    pub left :
        (k : Bytes) → get w'.files k ≡ (if contains (names visits) k then none else get w.files k)

  kept-IsIntact :
      (d : Dict ManifestFile) (n : Bytes) (v : Visit)
      → IsIntact (delete d n) v
      → IsIntact d v × (text_eq n v.1.name ≡ false)
  kept-IsIntact d n v i = elim (Bool-cases (text_eq n v.1.name)) [
    | inl e ↦ absurd (none_not_some (sym (rw e at (get-delete d n v.1.name)) ∙ i.is_listed))
    | inr e ↦ (
      record {
        is_listed = sym (rw e at (get-delete d n v.1.name)) ∙ i.is_listed;
        same_size = i.same_size;
        same_sha = i.same_sha;
      },
      e,
    )
  ]

  kept-All :
      (d : Dict ManifestFile) (n : Bytes) (vs : List Visit)
      → All (IsIntact (delete d n)) vs
      → All (IsIntact d) vs × (contains (names vs) n ≡ false)
  unfolding contains
  kept-All d n [] h = (tt, refl)
  kept-All d n (v ∷ vs) (i, h) =
      let (a, e) = kept-IsIntact d n v i in
      let (b, g) = kept-All d n vs h in
      ((a, b), ground (arith, text_eq_iff n v.1.name, text_eq_iff v.1.name n, e, g))

  pub entries-Visits :
      (hs : List TarEntry) (w w' : Walk S) → walk_entries sha256 fn w hs ≡ ok w' → Visits hs w w'
  unfolding walk_entries contains
  entries-Visits [] w w' k =
      let e = ok_inj k in
      record {
        visits = [];
        whole = refl;
        calls = ap (λ (z : Walk S). ok z.state) e;
        intact = tt;
        once = tt;
        left = λ j. ap (λ (z : Walk S). get z.files j) (sym e);
      }
  entries-Visits (h ∷ hs) w w' k =
      let (w1, e, k1) = >>=-eq-ok (walk_entry sha256 fn w h) _ k in
      after (entry-Step w w1 h e) (entries-Visits hs w1 w' k1)
    where
      after : {w1 : Walk S} → Step w w1 h → Visits hs w1 w' → Visits (h ∷ hs) w w'
      after {w1} (passed p fe se) v = record {
        visits = v.visits;
        whole = rw p v.whole;
        calls = ap (called v.visits) (sym se) ∙ v.calls;
        intact = subst (λ d. All (IsIntact d) v.visits) fe v.intact;
        once = v.once;
        left = λ j. v.left j ∙ ap (λ d. if contains (names v.visits) j then none else get d j) fe;
      }
      after {w1} (visited f p i run rest) v =
          let (all, fresh) =
            kept-All w.files h.name v.visits
              (subst (λ d. All (IsIntact d) v.visits) rest v.intact) in
          record {
            visits = (f, h) ∷ v.visits;
            whole = rw p (ap (λ es. h ∷ es) v.whole);
            calls = ap (λ r. r >>= called v.visits) run ∙ v.calls;
            intact = (i, all);
            once = (fresh, v.once);
            left = λ j.
                v.left j
                ∙ ap (λ d. if contains (names v.visits) j then none else get d j) rest
                ∙ ground (arith, get-delete w.files h.name j);
          }
