-- ===== src/Text/Order/Laws.antt =====
-- Sorting gives an ordered list, keeps the elements, and does nothing to an ordered list.
use aha.Prelude.{Bool, true, false, ◌≡◌, refl, List, [], ◌∷◌, arith, All, if◌then◌else◌}
use aha.Text.Equality.{Bytes}
use aha.Text.Order.{text_ltb, insert_by, sort_by}

pub text_ltb_irrefl : (s : Bytes) → text_ltb s s ≡ false
unfolding text_ltb
text_ltb_irrefl [] = refl
text_ltb_irrefl (a ∷ s) = ground (arith, text_ltb_irrefl s)

pub text_ltb-asymm : (s t : Bytes) → text_ltb s t ≡ true → text_ltb t s ≡ false
unfolding text_ltb
text_ltb-asymm [] [] h = refl
text_ltb-asymm [] (b ∷ t) h = refl
text_ltb-asymm (a ∷ s) [] h = cc
text_ltb-asymm (a ∷ s) (b ∷ t) h = ground (arith, text_ltb-asymm s t)

module _ {A : Type 0} (key : A → Bytes) where
  abbrev pub IsSorted : List A → Type 0
  IsSorted [] = Unit
  IsSorted (x ∷ []) = Unit
  IsSorted (x ∷ y ∷ ys) = (text_ltb (key y) (key x) ≡ false) × IsSorted (y ∷ ys)

  IsSorted-insert_by : (x : A) (ys : List A) → IsSorted ys → IsSorted (insert_by key x ys)
  unfolding insert_by
  IsSorted-insert_by x [] h = tt
  IsSorted-insert_by x (y ∷ []) h = ground (arith, text_ltb-asymm (key y) (key x))
  IsSorted-insert_by x (y ∷ z ∷ ys) (p, h) =
      ground (arith, text_ltb-asymm (key y) (key x), IsSorted-insert_by x (z ∷ ys) h)

  pub IsSorted-sort_by : (xs : List A) → IsSorted (sort_by key xs)
  unfolding sort_by
  IsSorted-sort_by [] = tt
  IsSorted-sort_by (x ∷ xs) = IsSorted-insert_by x (sort_by key xs) (IsSorted-sort_by xs)

  pub sort_by_of_IsSorted : (xs : List A) → IsSorted xs → sort_by key xs ≡ xs
  unfolding sort_by insert_by
  sort_by_of_IsSorted [] h = refl
  sort_by_of_IsSorted (x ∷ []) h = refl
  sort_by_of_IsSorted (x ∷ y ∷ ys) (p, h) = rw (sort_by_of_IsSorted (y ∷ ys) h, insert_by) (rw p)

  -- Sorting twice is sorting once.
  pub sort_by_idem : (xs : List A) → sort_by key (sort_by key xs) ≡ sort_by key xs
  sort_by_idem xs = sort_by_of_IsSorted (sort_by key xs) (IsSorted-sort_by xs)

  module _ (P : A → Type 0) where
    All-insert_by : (x : A) (ys : List A) → P x → All P ys → All P (insert_by key x ys)
    unfolding insert_by
    All-insert_by x [] p h = (p, tt)
    All-insert_by x (y ∷ ys) p (q, h) = go (text_ltb (key y) (key x)) (All-insert_by x ys p h)
      where
        go :
            (b : Bool)
            → All P (insert_by key x ys)
            → All P (if b then y ∷ insert_by key x ys else x ∷ y ∷ ys)
        go true k = (q, k)
        go false k = (p, (q, h))

    pub All-sort_by : (xs : List A) → All P xs → All P (sort_by key xs)
    unfolding sort_by
    All-sort_by [] h = tt
    All-sort_by (x ∷ xs) (p, h) = All-insert_by x (sort_by key xs) p (All-sort_by xs h)

    All-insert_by_inv : (x : A) (ys : List A) → All P (insert_by key x ys) → P x × All P ys
    unfolding insert_by
    All-insert_by_inv x [] (p, h) = (p, tt)
    All-insert_by_inv x (y ∷ ys) h = go (text_ltb (key y) (key x)) (λ k. All-insert_by_inv x ys k) h
      where
        go :
            (b : Bool)
            → (All P (insert_by key x ys) → P x × All P ys)
            → All P (if b then y ∷ insert_by key x ys else x ∷ y ∷ ys)
            → P x × All P (y ∷ ys)
        go true ih (q, k) = let (p, h) = ih k in (p, (q, h))
        go false ih (p, h) = (p, h)

    pub All-sort_by_inv : (xs : List A) → All P (sort_by key xs) → All P xs
    unfolding sort_by
    All-sort_by_inv [] h = tt
    All-sort_by_inv (x ∷ xs) h =
        let (p, k) = All-insert_by_inv x (sort_by key xs) h in (p, All-sort_by_inv xs k)
