-- ===== src/Text/Dict/Distinct.antt =====
-- Maps whose keys stand once: two of them hold the same when each entry of the one is in the other
-- and their sizes agree.
use aha.Prelude.{
  Bool, ◌+◌, ◌≤◌, true, false, [], ◌∷◌, none, some, length, if◌then◌else◌, ◌≡◌, refl, arith,
}
use aha.Text.Equality.{Bytes, text_eq, text_eq_iff, text_eq_refl}
use aha.Text.Dict.{Dict, get, put, delete, get-delete}

module _ {V : Type 0} where
  abbrev pub IsDistinct : Dict V → Type 0
  IsDistinct [] = Unit
  IsDistinct ((k, v) ∷ d) = (get d k ≡ none) × IsDistinct d

  -- Every entry of the one is in the other.
  abbrev pub IsWithin : Dict V → Dict V → Type 0
  IsWithin a b = (k : Bytes) (v : V) → get a k ≡ some v → get b k ≡ some v

  pub delete-IsDistinct : (d : Dict V) (k : Bytes) → IsDistinct d → IsDistinct (delete d k)
  unfolding delete
  delete-IsDistinct [] k h = tt
  delete-IsDistinct ((j, v) ∷ d) k (h, hs) = kept (text_eq j k) (delete-IsDistinct d k hs)
    where
      kept :
          (b : Bool)
          → IsDistinct (delete d k)
          → IsDistinct (if b then delete d k else (j, v) ∷ delete d k)
      kept true r = r
      kept false r = (ground (arith, get-delete d k j, h), r)

  pub put-IsDistinct : (d : Dict V) (k : Bytes) (v : V) → IsDistinct d → IsDistinct (put d k v)
  unfolding put
  put-IsDistinct d k v h =
      (ground (arith, get-delete d k k, text_eq_refl k), delete-IsDistinct d k h)

  length-delete_absent : (d : Dict V) (k : Bytes) → get d k ≡ none → length (delete d k) ≡ length d
  unfolding delete get
  length-delete_absent [] k h = refl
  length-delete_absent ((j, v) ∷ d) k h = ground (arith, length-delete_absent d k)

  length-delete :
      (d : Dict V) (k : Bytes) (v : V)
      → IsDistinct d
      → get d k ≡ some v
      → length (delete d k) + 1 ≡ length d
  unfolding delete get
  length-delete [] k v h g = cc
  length-delete ((j, u) ∷ d) k v (h, hs) g =
      ground (arith, length-delete d k v hs, length-delete_absent d k, text_eq_iff j k)

  -- What is left of a map without its first entry, in a map without that key.
  tail-IsWithin :
      (j : Bytes) (u : V) (a b : Dict V)
      → get a j ≡ none
      → IsWithin ((j, u) ∷ a) b
      → IsWithin a (delete b j)
  unfolding get
  tail-IsWithin j u a b n w k v g = ground (arith, get-delete b j k, text_eq_iff j k, w k v)

  head-IsWithin : (j : Bytes) (u : V) (a b : Dict V) → IsWithin ((j, u) ∷ a) b → get b j ≡ some u
  unfolding get
  head-IsWithin j u a b w = w j u (ground (arith, text_eq_refl j))

  pub length-IsWithin :
      (a b : Dict V) → IsDistinct a → IsDistinct b → IsWithin a b → length a ≤ length b
  length-IsWithin [] b p q w = omega arith
  length-IsWithin ((j, u) ∷ a) b (n, p) q w = omega (
    arith,
    length-delete b j u q (head-IsWithin j u a b w),
    length-IsWithin a (delete b j) p (delete-IsDistinct b j q) (tail-IsWithin j u a b n w),
  )

  -- A map within another of the same size lacks what it lacks.
  pub absent-IsWithin :
      (a b : Dict V)
      → IsDistinct a
      → IsDistinct b
      → IsWithin a b
      → length a ≡ length b
      → (k : Bytes) → get a k ≡ none
      → get b k ≡ none
  unfolding get
  absent-IsWithin [] [] p q w l k g = refl
  absent-IsWithin [] (e ∷ b) p q w l k g = ground arith
  absent-IsWithin ((j, u) ∷ a) b (n, p) q w l k g =
      let size : length a ≡ length (delete b j) =
        omega (arith, length-delete b j u q (head-IsWithin j u a b w)) in
      ground (
        arith,
        get-delete b j k,
        absent-IsWithin a (delete b j) p (delete-IsDistinct b j q) (tail-IsWithin j u a b n w) size
            k,
      )
