-- ===== src/Text/Dict.antt =====
-- Go maps with text keys: each key stands at most once, and the order of the entries means nothing.
pub mod Distinct
use aha.Prelude.{Bool, true, false, List, [], ◌∷◌, Option, none, some, if◌then◌else◌, ◌≡◌, arith}
use aha.Text.Equality.{Bytes, text_eq, text_eq_iff}

abbrev pub Dict : Type 0 → Type 0
Dict V = List (Bytes × V)

module _ {V : Type 0} where
  unfoldable pub get : Dict V → Bytes → Option V
  get [] k = none
  get ((j, v) ∷ d) k = if text_eq j k then some v else get d k

  unfoldable pub delete : Dict V → Bytes → Dict V
  delete [] k = []
  delete ((j, v) ∷ d) k = if text_eq j k then delete d k else (j, v) ∷ delete d k

  unfoldable pub put : Dict V → Bytes → V → Dict V
  put d k v = (k, v) ∷ delete d k

  unfoldable pub has : Dict V → Bytes → Bool
  has [] k = false
  has ((j, v) ∷ d) k = if text_eq j k then true else has d k

  abbrev pub keys : Dict V → List Bytes
  keys [] = []
  keys ((j, v) ∷ d) = j ∷ keys d

  pub get-delete :
      (d : Dict V) (j k : Bytes) → get (delete d j) k ≡ (if text_eq j k then none else get d k)
  unfolding get delete
  get-delete [] j k = ground arith
  get-delete ((i, v) ∷ d) j k =
      ground (arith, text_eq_iff i j, text_eq_iff i k, text_eq_iff j k, get-delete d j k)

  pub get-put :
      (d : Dict V) (j : Bytes) (v : V) (k : Bytes)
      → get (put d j v) k ≡ (if text_eq j k then some v else get d k)
  unfolding get put
  get-put d j v k = ground (arith, get-delete d j k)
