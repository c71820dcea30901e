-- ===== src/Text/Space/Laws.antt =====
-- What `strings.TrimSpace` leaves, and which texts are blank.
use mathlib.Core.List.{reverse-reverse, reverse-cons}
use aha.Prelude.{
  ◌≤◌, if◌then◌else◌, ℕ, zero, suc, Bool, true, false, ◌||◌, ◌≡◌, refl, [], ◌∷◌, reverse, arith,
  ◌==◌, leb, All, All-append, length, take, drop, subst, Bool-cases, inl, inr,
}
use aha.Text.Equality.{Bytes, text_eq_iff}
use aha.Text.Space.{is_ascii_space, space_width, last_space_width, skip, trim_space, is_blank}

-- A byte that can stand in white space.
abbrev pub is_space_byte : ℕ → Bool
is_space_byte c = is_ascii_space c || leb 0x80 c

abbrev pub Spaces : Bytes → Type 0
Spaces = All (λ c. is_space_byte c ≡ true)

take-space_width : (s : Bytes) → Spaces (take (space_width s) s)
unfolding space_width
take-space_width [] = tt
take-space_width (a ∷ []) = ground arith
take-space_width (a ∷ b ∷ []) = ground arith
take-space_width (a ∷ b ∷ c ∷ s) = ground arith

take-last_space_width : (s : Bytes) → Spaces (take (last_space_width s) s)
unfolding last_space_width
take-last_space_width [] = tt
take-last_space_width (a ∷ []) = ground arith
take-last_space_width (a ∷ b ∷ []) = ground arith
take-last_space_width (a ∷ b ∷ c ∷ s) = ground arith

take-drop-Spaces : (n : ℕ) (s : Bytes) → Spaces (take n s) → Spaces (drop n s) → Spaces s
take-drop-Spaces zero s h k = k
take-drop-Spaces (suc n) [] h k = tt
take-drop-Spaces (suc n) (c ∷ s) (p, h) k = (p, take-drop-Spaces n s h k)

module _ (width : Bytes → ℕ) (spaces : (s : Bytes) → Spaces (take (width s) s)) where
  skip-Spaces : (n : ℕ) (s : Bytes) → Spaces (skip width n s) → Spaces s
  unfolding skip
  skip-Spaces zero s h = h
  skip-Spaces (suc n) s h = elim (Bool-cases (width s == 0)) [
    | inl e ↦ rw e at h
    | inr e ↦ take-drop-Spaces (width s) s (spaces s) (skip-Spaces n (drop (width s) s) (rw e at h))
  ]

reverse-Spaces : (s : Bytes) → Spaces s → Spaces (reverse s)
reverse-Spaces [] h = tt
reverse-Spaces (c ∷ s) (p, h) =
    rw reverse-cons
      (All-append (λ c. is_space_byte c ≡ true) (reverse s) (c ∷ []) (reverse-Spaces s h) (p, tt))

reverse-Spaces_inv : (s : Bytes) → Spaces (reverse s) → Spaces s
reverse-Spaces_inv s h = subst Spaces (reverse-reverse s) (reverse-Spaces (reverse s) h)

-- A blank text holds only bytes of white space.
pub is_blank-Spaces : (s : Bytes) → is_blank s ≡ true → Spaces s
unfolding is_blank trim_space
is_blank-Spaces s h =
    let t = skip space_width (length s) s in
    let u = skip last_space_width (length t) (reverse t) in
    let e : reverse u ≡ [] = (text_eq_iff (reverse u) []).0 h in
    let hu : Spaces u = reverse-Spaces_inv u (rw e tt) in
    let ht : Spaces t =
      reverse-Spaces_inv t
        (skip-Spaces last_space_width take-last_space_width (length t) (reverse t) hu) in
    skip-Spaces space_width take-space_width (length s) s ht

-- A text that begins with an ASCII character other than white space is not blank.
pub not_blank_of_head : (c : ℕ) (s : Bytes) → is_space_byte c ≡ false → is_blank (c ∷ s) ≡ false
not_blank_of_head c s h = elim (Bool-cases (is_blank (c ∷ s))) [
  | inl e ↦ ground (arith, (is_blank-Spaces (c ∷ s) e).0)
  | inr e ↦ e
]

length-drop-lt : (n : ℕ) (c : ℕ) (s : Bytes) → length (drop (suc n) (c ∷ s)) ≤ length s
length-drop-lt zero c s = omega arith
length-drop-lt (suc n) c [] = omega arith
length-drop-lt (suc n) c (d ∷ s) = omega (arith, length-drop-lt n d s)

module _ (width : Bytes → ℕ) (nothing : width [] ≡ 0) where
  skip-nil : (n : ℕ) → width (skip width n []) ≡ 0
  unfolding skip
  skip-nil zero = nothing
  skip-nil (suc n) = rw (nothing, if◌then◌else◌) nothing

  skip_done : (n : ℕ) (s : Bytes) → length s ≤ n → width (skip width n s) ≡ 0
  unfolding skip
  skip_done n [] h = skip-nil n
  skip_done zero (c ∷ s) h = absurd (omega arith)
  skip_done (suc n) (c ∷ s) h = go (width (c ∷ s)) refl (λ t k. skip_done n t k)
    where
      go :
          (w : ℕ)
          → width (c ∷ s) ≡ w
          → ((t : Bytes) → length t ≤ n → width (skip width n t) ≡ 0)
          → width (if w == 0 then c ∷ s else skip width n (drop w (c ∷ s))) ≡ 0
      go zero e next = e
      go (suc w) e next =
          ground (arith, next (drop (suc w) (c ∷ s)) (omega (arith, length-drop-lt w c s)))
