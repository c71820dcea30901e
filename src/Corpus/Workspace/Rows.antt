-- ===== src/Corpus/Workspace/Rows.antt =====
-- The rows that `RecordMaterialisedVector` writes: the entries of the vector, in order of the machines.
use aha.Prelude.{
  Bool, true, false, List, [], ◌∷◌, none, some, map, ◌≡◌, ◌≢◌, refl, if◌then◌else◌, arith, ok,
  >>-eq-ok, fail_if-eq-ok, All, sym, ap, ◌∙◌,
}
use aha.Prelude.Sort.{sort_stable, insert_stable}
use aha.Text.{Bytes, text_eq, text_eq_iff, text_eq_refl, contains}
use aha.Text.Order.{text_ltb}
use aha.Text.Dict.{Dict, get, keys}
use aha.Text.Dict.Distinct.{IsDistinct}
use aha.Model.Identity.{parse_sha256_hex}
use aha.Corpus.Workspace.{check_sha, check_vector, or_blank, rows_of}
use aha.Corpus.Workspace.Vector.{IsVector}

abbrev NoDup : List Bytes → Type 0
NoDup [] = Unit
NoDup (k ∷ ks) = (contains ks k ≡ false) × NoDup ks

contains-insert :
    (x : Bytes) (ys : List Bytes) (t : Bytes)
    → contains (insert_stable text_ltb x ys) t ≡ contains (x ∷ ys) t
unfolding insert_stable contains
contains-insert x [] t = refl
contains-insert x (y ∷ ys) t = ground (arith, contains-insert x ys t)

contains-sort : (ks : List Bytes) (t : Bytes) → contains (sort_stable text_ltb ks) t ≡ contains ks t
unfolding sort_stable contains
contains-sort [] t = refl
contains-sort (k ∷ ks) t =
    ground (arith, contains-insert k (sort_stable text_ltb ks) t, contains-sort ks t)

NoDup-if :
    (b : Bool) (x y : Bytes) (ys zs : List Bytes)
    → NoDup (y ∷ zs)
    → NoDup (x ∷ y ∷ ys)
    → NoDup (if b then y ∷ zs else x ∷ y ∷ ys)
NoDup-if true x y ys zs p q = p
NoDup-if false x y ys zs p q = q

NoDup-insert :
    (x : Bytes) (ys : List Bytes)
    → contains ys x ≡ false
    → NoDup ys
    → NoDup (insert_stable text_ltb x ys)
unfolding insert_stable contains
NoDup-insert x [] h p = (refl, tt)
NoDup-insert x (y ∷ ys) h (n, p) =
    NoDup-if (text_ltb y x) x y ys (insert_stable text_ltb x ys)
      (
        ground (arith, contains-insert x ys y, text_eq_iff x y, text_eq_iff y x),
        NoDup-insert x ys (ground arith) p,
      )
      (h, (n, p))

NoDup-sort : (ks : List Bytes) → NoDup ks → NoDup (sort_stable text_ltb ks)
unfolding sort_stable
NoDup-sort [] p = tt
NoDup-sort (k ∷ ks) (n, p) =
    NoDup-insert k (sort_stable text_ltb ks) (contains-sort ks k ∙ n) (NoDup-sort ks p)

contains-keys :
    (v : Dict Bytes) (k : Bytes)
    → (if contains (keys v) k then some (or_blank (get v k)) else none) ≡ get v k
unfolding contains get
contains-keys [] k = refl
contains-keys ((j, s) ∷ v) k = ground (arith, contains-keys v k)

get-none-contains : (v : Dict Bytes) (k : Bytes) → get v k ≡ none → contains (keys v) k ≡ false
unfolding contains get
get-none-contains [] k h = refl
get-none-contains ((j, s) ∷ v) k h = ground (arith, get-none-contains v k)

NoDup-keys : (v : Dict Bytes) → IsDistinct v → NoDup (keys v)
NoDup-keys [] p = tt
NoDup-keys ((j, s) ∷ v) (n, p) = (get-none-contains v j n, NoDup-keys v p)

module _ (f : Bytes → Bytes) where
  abbrev paired : List Bytes → Dict Bytes
  paired = map (λ k. (k, f k))

  get-paired :
      (ks : List Bytes) (k : Bytes)
      → get (paired ks) k ≡ (if contains ks k then some (f k) else none)
  unfolding get contains
  get-paired [] k = refl
  get-paired (j ∷ ks) k = ground (arith, get-paired ks k, text_eq_iff j k)

  paired-IsDistinct : (ks : List Bytes) → NoDup ks → IsDistinct (paired ks)
  paired-IsDistinct [] p = tt
  paired-IsDistinct (k ∷ ks) (n, p) =
      (get-paired ks k ∙ ap (λ b. if b then some (f k) else none) n, paired-IsDistinct ks p)

  paired-named :
      (ks : List Bytes)
      → ((k : Bytes) → contains ks k ≡ true → f k ≢ [])
      → All (λ e. e.1 ≢ []) (paired ks)
  unfolding contains
  paired-named [] h = tt
  paired-named (k ∷ ks) h =
      (h k (ground (arith, text_eq_refl k)), paired-named ks (λ j c. h j (ground arith)))

-- The rows hold what the vector holds.
pub get-rows_of : (v : Dict Bytes) (k : Bytes) → get (rows_of v) k ≡ get v k
get-rows_of v k =
    get-paired (λ m. or_blank (get v m)) (sort_stable text_ltb (keys v)) k
    ∙ ap (λ b. if b then some (or_blank (get v k)) else none) (contains-sort (keys v) k)
    ∙ contains-keys v k

check_vector-named : (v : Dict Bytes) → check_vector v ≡ ok tt → All (λ e. e.1 ≢ []) v
unfolding check_vector check_sha parse_sha256_hex
check_vector-named [] h = tt
check_vector-named ((machine, sha) ∷ v) h =
    let (b1, h1) = fail_if-eq-ok (text_eq machine []) _ _ h in
    let (p, h2) = >>-eq-ok (check_sha machine sha) _ h1 in
    (named machine sha p, check_vector-named v h2)
  where
    named : (m s : Bytes) → check_sha m s ≡ ok tt → s ≢ []
    named m [] p q = cc
    named m (c ∷ s) p q = cc

named_at :
    (v : Dict Bytes) (k : Bytes)
    → All (λ e. e.1 ≢ []) v
    → contains (keys v) k ≡ true
    → or_blank (get v k) ≢ []
unfolding contains get
named_at [] k n h = cc
named_at ((j, s) ∷ v) k (m, n) h = ground (arith, named_at v k n)

pub rows_of-IsVector :
    (v : Dict Bytes) → IsDistinct v → check_vector v ≡ ok tt → IsVector (rows_of v)
rows_of-IsVector v p h =
    let f : Bytes → Bytes = λ m. or_blank (get v m) in
    let ks = sort_stable text_ltb (keys v) in
    (
      paired-IsDistinct f ks (NoDup-sort (keys v) (NoDup-keys v p)),
      paired-named f ks
          (λ k c. named_at v k (check_vector-named v h) (sym (contains-sort (keys v) k) ∙ c)),
    )
