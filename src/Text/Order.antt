-- ===== src/Text/Order.antt =====
-- The byte order of Go strings, and `sort.Strings` and `sort.Slice` by a text key.
pub mod Laws
use aha.Prelude.{Bool, true, false, List, [], ◌∷◌, ltb, ◌==◌, if◌then◌else◌, ◌≡◌, refl}
use aha.Text.Equality.{Bytes, codes}

unfoldable pub text_ltb : Bytes → Bytes → Bool
text_ltb [] [] = false
text_ltb [] (b ∷ t) = true
text_ltb (a ∷ s) [] = false
text_ltb (a ∷ s) (b ∷ t) = if ltb a b then true else if a == b then text_ltb s t else false

module _ {A : Type 0} (key : A → Bytes) where
  insert_by : A → List A → List A
  insert_by x [] = x ∷ []
  insert_by x (y ∷ ys) = if text_ltb (key y) (key x) then y ∷ insert_by x ys else x ∷ y ∷ ys

  unfoldable pub sort_by : List A → List A
  unfolding insert_by
  sort_by [] = []
  sort_by (x ∷ xs) = insert_by x (sort_by xs)

unfoldable pub sort_texts : List Bytes → List Bytes
sort_texts = sort_by (λ s. s)

sort_example :
    sort_texts (codes "b" ∷ codes "ab" ∷ codes "a" ∷ []) ≡ codes "a" ∷ codes "ab" ∷ codes "b" ∷ []
unfolding sort_texts sort_by text_ltb
sort_example = refl
