-- ===== src/Prelude/Lists.antt =====
-- Lists measured by native numbers, and predicates on all their elements.
use Prim.Native.Nat.{ℕ, zero, suc, ◌+◌, ◌-◌, ◌≤◌}
use mathlib.Core.Logic.{◌⊎◌, inl, inr}
use mathlib.Core.Option.{Option, none, some}
use mathlib.Core.Path.{◌≡◌, refl}
use mathlib.Core.List.{List, [], ◌∷◌, ◌++◌}
use native.Mathlib.Omega.{arith}

module _ {ℓ} {A : Type ℓ} where
  abbrev pub length : List A → ℕ
  length [] = 0
  length (x ∷ xs) = suc (length xs)

  pub length-append : (xs ys : List A) → length (xs ++ ys) ≡ length xs + length ys
  length-append [] ys = omega arith
  length-append (x ∷ xs) ys = omega (arith, length-append xs ys)

  abbrev pub take : ℕ → List A → List A
  take zero xs = []
  take (suc n) [] = []
  take (suc n) (x ∷ xs) = x ∷ take n xs

  abbrev pub drop : ℕ → List A → List A
  drop zero xs = xs
  drop (suc n) [] = []
  drop (suc n) (x ∷ xs) = drop n xs

module _ {ℓ κ} {A : Type ℓ} where
  abbrev pub All : (A → Type κ) → List A → Type κ
  All P [] = Unit {κ}
  All P (x ∷ xs) = P x × All P xs

  pub All-append : (P : A → Type κ) (xs ys : List A) → All P xs → All P ys → All P (xs ++ ys)
  All-append P [] ys _ hy = hy
  All-append P (x ∷ xs) ys (px, hx) hy = (px, All-append P xs ys hx hy)

module _ {ℓ} {A : Type ℓ} where
  pub append-inj :
      (s t : List A) {r q : List A} → length s ≡ length t → s ++ r ≡ t ++ q → (s ≡ t) × (r ≡ q)
  append-inj [] [] e h = (refl, h)
  append-inj [] (c ∷ t) e h = absurd (omega arith)
  append-inj (c ∷ s) [] e h = absurd (omega arith)
  append-inj (c ∷ s) (d ∷ t) {r} {q} e h =
      let (p, k) = append-inj s t {r = r} {q = q} (omega arith) (cc h) in (cc (p, h), k)

module _ {ℓ} {A : Type ℓ} where
  abbrev pub get_elem? : List A → ℕ → Option A
  get_elem? [] i = none
  get_elem? (x ∷ xs) zero = some x
  get_elem? (x ∷ xs) (suc i) = get_elem? xs i

  -- Changes one element; past the end nothing.
  abbrev pub modify : ℕ → (A → A) → List A → List A
  modify n f [] = []
  modify zero f (x ∷ xs) = f x ∷ xs
  modify (suc n) f (x ∷ xs) = x ∷ modify n f xs

  pub length-take : (n : ℕ) (xs : List A) → n ≤ length xs → length (take n xs) ≡ n
  length-take zero xs h = refl
  length-take (suc n) [] h = absurd (omega arith)
  length-take (suc n) (x ∷ xs) h = omega (arith, length-take n xs (omega arith))

  pub length-drop : (n : ℕ) (xs : List A) → length (drop n xs) ≡ length xs - n
  length-drop zero xs = omega arith
  length-drop (suc n) [] = omega arith
  length-drop (suc n) (x ∷ xs) = omega (arith, length-drop n xs)

  pub get_elem?-append :
      (xs ys : List A) (n : ℕ) {x : A} → get_elem? xs n ≡ some x → get_elem? (xs ++ ys) n ≡ some x
  get_elem?-append [] ys n h = cc
  get_elem?-append (x ∷ xs) ys zero h = h
  get_elem?-append (x ∷ xs) ys (suc n) h = get_elem?-append xs ys n h

  pub get_elem?-append_length :
      (xs ys : List A) (y : A) → get_elem? (xs ++ y ∷ ys) (length xs) ≡ some y
  get_elem?-append_length [] ys y = refl
  get_elem?-append_length (x ∷ xs) ys y = get_elem?-append_length xs ys y

  pub get_elem?-modify :
      (n : ℕ) (f : A → A) (xs : List A) (m : ℕ) (x : A)
      → get_elem? xs m ≡ some x
      → (y : A) × (get_elem? (modify n f xs) m ≡ some y) × ((y ≡ x) ⊎ (y ≡ f x))
  get_elem?-modify n f [] m x h = absurd (cc h)
  get_elem?-modify zero f (a ∷ xs) zero x h = (f a, refl, inr (cc (h)))
  get_elem?-modify zero f (a ∷ xs) (suc m) x h = (x, h, inl refl)
  get_elem?-modify (suc n) f (a ∷ xs) zero x h = (x, h, inl refl)
  get_elem?-modify (suc n) f (a ∷ xs) (suc m) x h = get_elem?-modify n f xs m x h

module _ {ℓ κ} {A : Type ℓ} (P : A → Type κ) where
  pub All-modify :
      (n : ℕ) (f : A → A) (xs : List A)
      → All P xs
      → ((x : A) → get_elem? xs n ≡ some x → P (f x))
      → All P (modify n f xs)
  All-modify n f [] h k = tt
  All-modify zero f (x ∷ xs) (p, h) k = (k x refl, h)
  All-modify (suc n) f (x ∷ xs) (p, h) k = (p, All-modify n f xs h k)
