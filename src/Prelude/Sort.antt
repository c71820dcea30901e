-- ===== src/Prelude/Sort.antt =====
-- `sort.SliceStable`: for a strict weak order, its result is the one ordered arrangement that keeps
-- equal elements in their order. Insertion from the right computes it.
use Prim.Native.Nat.{◌+◌}
use mathlib.Core.Path.{◌≡◌, refl}
use mathlib.Core.Bool.{Bool, true, false}
use mathlib.Core.List.{List, [], ◌∷◌}
use mathlib.Core.Logic.{inl, inr}
use native.Mathlib.Omega.{arith}
use aha.Prelude.Tests.{if◌then◌else◌, Bool-cases}
use aha.Prelude.Lists.{length, All}

module _ {A : Type 0} (less : A → A → Bool) where
  unfoldable pub insert_stable : A → List A → List A
  insert_stable x [] = x ∷ []
  insert_stable x (y ∷ ys) = if less y x then y ∷ insert_stable x ys else x ∷ y ∷ ys

  unfoldable pub sort_stable : List A → List A
  unfolding insert_stable
  sort_stable [] = []
  sort_stable (x ∷ xs) = insert_stable x (sort_stable xs)

  length-insert_stable : (x : A) (ys : List A) → length (insert_stable x ys) ≡ length ys + 1
  unfolding insert_stable
  length-insert_stable x [] = refl
  length-insert_stable x (y ∷ ys) = ground (arith, length-insert_stable x ys)

  pub length-sort_stable : (xs : List A) → length (sort_stable xs) ≡ length xs
  unfolding sort_stable
  length-sort_stable [] = refl
  length-sort_stable (x ∷ xs) =
      omega (arith, length-insert_stable x (sort_stable xs), length-sort_stable xs)

  module _ {κ} (P : A → Type κ) where
    All-insert_stable : (x : A) (ys : List A) → P x → All P ys → All P (insert_stable x ys)
    unfolding insert_stable
    All-insert_stable x [] p h = (p, tt)
    All-insert_stable x (y ∷ ys) p (q, h) = elim (Bool-cases (less y x)) [
      | inl e ↦ rw e (q, All-insert_stable x ys p h)
      | inr e ↦ rw e (p, (q, h))
    ]

    pub All-sort_stable : (xs : List A) → All P xs → All P (sort_stable xs)
    unfolding sort_stable
    All-sort_stable [] h = tt
    All-sort_stable (x ∷ xs) (p, h) = All-insert_stable x (sort_stable xs) p (All-sort_stable xs h)

  -- Neighbours are in order.
  abbrev pub InOrder : List A → Type 0
  InOrder [] = Unit
  InOrder (x ∷ []) = Unit
  InOrder (x ∷ y ∷ ys) = (less y x ≡ false) × InOrder (y ∷ ys)

  module _ (asymm : (x y : A) → less x y ≡ true → less y x ≡ false) where
    insert_stable-InOrder : (x : A) (ys : List A) → InOrder ys → InOrder (insert_stable x ys)
    unfolding insert_stable
    insert_stable-InOrder x [] h = tt
    insert_stable-InOrder x (y ∷ []) h = ground (arith, asymm y x)
    insert_stable-InOrder x (y ∷ z ∷ ys) (p, h) =
        ground (arith, asymm y x, insert_stable-InOrder x (z ∷ ys) h)

    pub sort_stable-InOrder : (xs : List A) → InOrder (sort_stable xs)
    unfolding sort_stable
    sort_stable-InOrder [] = tt
    sort_stable-InOrder (x ∷ xs) = insert_stable-InOrder x (sort_stable xs) (sort_stable-InOrder xs)
