-- ===== src/Corpus/Workspace/Vector.antt =====
-- `equalVector` decides whether two vectors hold the same.
use aha.Prelude.{
  ◌==◌, ==_iff, Bool, true, false, ◌&&◌, [], ◌∷◌, Option, none, some, length, ◌≡◌, ◌≢◌, ◌↔◌, refl,
  if◌then◌else◌, arith, Option-cases, inl, inr, All, &&-true, sym, ◌∙◌, ap,
}
use aha.Text.{Bytes, text_eq, text_eq_iff, text_eq_refl}
use aha.Text.Dict.{Dict, get, put, delete, get-put}
use aha.Text.Dict.Distinct.{IsDistinct, IsWithin, put-IsDistinct, length-IsWithin, absent-IsWithin}
use aha.Corpus.Workspace.{or_blank, agrees, equal_vector, read_rows}

abbrev keep : Option Bytes → Option Bytes → Option Bytes
keep none o = o
keep (some s) o = some s

-- Each machine stands once, with an identity that is not empty.
abbrev pub IsVector : Dict Bytes → Type 0
IsVector v = IsDistinct v × All (λ e. e.1 ≢ []) v

or_blank-some : (o : Option Bytes) (u : Bytes) → u ≢ [] → or_blank o ≡ u → o ≡ some u
or_blank-some none u n h = ground arith
or_blank-some (some s) u n h = ap some h

agrees-IsWithin : (a b : Dict Bytes) → All (λ e. e.1 ≢ []) a → agrees a b ≡ true → IsWithin a b
unfolding agrees get
agrees-IsWithin [] b n h k v g = cc
agrees-IsWithin ((j, u) ∷ a) b (n, ns) h k v g =
    let (x, y) = &&-true _ _ h in
    let same : get b j ≡ some u =
      or_blank-some (get b j) u n ((text_eq_iff (or_blank (get b j)) u).0 x) in
    ground (arith, text_eq_iff j k, same, agrees-IsWithin a b ns y k v)

-- The other entries of a map are in what the map is in.
IsWithin-tail :
    (j u : Bytes) (a b : Dict Bytes) → get a j ≡ none → IsWithin ((j, u) ∷ a) b → IsWithin a b
unfolding get
IsWithin-tail j u a b n w k v g = ground (arith, w k v, text_eq_iff j k)

IsWithin-agrees : (a b : Dict Bytes) → IsDistinct a → IsWithin a b → agrees a b ≡ true
unfolding agrees get
IsWithin-agrees [] b p w = refl
IsWithin-agrees ((j, u) ∷ a) b (n, p) w = ground (
  arith,
  w j u,
  text_eq_refl j,
  text_eq_refl u,
  IsWithin-agrees a b p (IsWithin-tail j u a b n w),
)

-- `equalVector` says true exactly when the two vectors have the same identity for every machine, for
-- vectors in which each machine stands once, with an identity that is not empty.
pub equal_vector_iff :
    (a b : Dict Bytes)
    → IsVector a
    → IsVector b
    → (equal_vector a b ≡ true) ↔ ((k : Bytes) → get a k ≡ get b k)
unfolding equal_vector
equal_vector_iff a b (p, n) (q, m) = (to, from)
  where
    to : (length a == length b && agrees a b) ≡ true → (k : Bytes) → get a k ≡ get b k
    to h k =
        let (x, y) = &&-true _ _ h in
        let within = agrees-IsWithin a b n y in
        let size = (==_iff (length a) (length b)).0 x in
        elim (Option-cases (get a k)) [
          | inl e ↦ e ∙ sym (absent-IsWithin a b p q within size k e)
          | inr (v, e) ↦ e ∙ sym (within k v e)
        ]

    from : ((k : Bytes) → get a k ≡ get b k) → (length a == length b && agrees a b) ≡ true
    from h =
        let ab : IsWithin a b = λ k v g. sym (h k) ∙ g in
        let ba : IsWithin b a = λ k v g. h k ∙ g in
        ground (
          arith,
          length-IsWithin a b p q ab,
          length-IsWithin b a q p ba,
          IsWithin-agrees a b p ab,
          ==_iff (length a) (length b),
        )

get-read_rows_from :
    (rows out : Dict Bytes) (k : Bytes)
    → IsDistinct rows
    → get (read_rows out rows) k ≡ keep (get rows k) (get out k)
unfolding read_rows get
get-read_rows_from [] out k p = refl
get-read_rows_from ((j, u) ∷ rows) out k (n, p) =
    ground (arith, get-read_rows_from rows (put out j u) k p, get-put out j u k, text_eq_iff j k)

All-delete : (d : Dict Bytes) (k : Bytes) → All (λ e. e.1 ≢ []) d → All (λ e. e.1 ≢ []) (delete d k)
unfolding delete
All-delete [] k h = tt
All-delete ((j, v) ∷ d) k (h, hs) = kept (text_eq j k) (All-delete d k hs)
  where
    kept :
        (b : Bool)
        → All (λ e. e.1 ≢ []) (delete d k)
        → All (λ e. e.1 ≢ []) (if b then delete d k else (j, v) ∷ delete d k)
    kept true r = r
    kept false r = (h, r)

pub read_rows-IsVector :
    (rows out : Dict Bytes)
    → All (λ e. e.1 ≢ []) rows
    → IsVector out
    → IsVector (read_rows out rows)
unfolding read_rows put
read_rows-IsVector [] out n h = h
read_rows-IsVector ((j, u) ∷ rows) out (n, ns) (p, m) =
    read_rows-IsVector rows (put out j u) ns (put-IsDistinct out j u p, (n, All-delete out j m))

keep-none : (o : Option Bytes) → keep o none ≡ o
keep-none none = refl
keep-none (some s) = refl

-- Rows in which each machine stands once read back as they are.
pub get-read_rows :
    (rows : Dict Bytes) (k : Bytes) → IsDistinct rows → get (read_rows [] rows) k ≡ get rows k
unfolding get
get-read_rows rows k p = get-read_rows_from rows [] k p ∙ keep-none (get rows k)
