-- ===== src/Text/Space/Printable.antt =====
-- `strings.TrimSpace` leaves a text of printable ASCII characters as it is.
use aha.Prelude.{
  ℕ, zero, suc, ◌≡◌, ◌≤◌, refl, [], ◌∷◌, reverse, length, All, All-append, arith, sym, subst,
}
use mathlib.Core.List.{reverse-reverse, reverse-cons}
use aha.Text.Equality.{Bytes}
use aha.Text.Space.{trim_space, skip, space_width, last_space_width}

abbrev pub IsPrintable : Bytes → Type 0
IsPrintable = All (λ c. (33 ≤ c) × (c ≤ 126))

space_width-IsPrintable : (s : Bytes) → IsPrintable s → space_width s ≡ 0
unfolding space_width
space_width-IsPrintable [] h = refl
space_width-IsPrintable (a ∷ []) (h, t) = ground arith
space_width-IsPrintable (a ∷ b ∷ []) (h, t) = ground arith
space_width-IsPrintable (a ∷ b ∷ c ∷ s) (h, t) = ground arith

last_space_width-IsPrintable : (s : Bytes) → IsPrintable s → last_space_width s ≡ 0
unfolding last_space_width
last_space_width-IsPrintable [] h = refl
last_space_width-IsPrintable (a ∷ []) (h, t) = ground arith
last_space_width-IsPrintable (b ∷ a ∷ []) (h, (k, t)) = ground arith
last_space_width-IsPrintable (c ∷ b ∷ a ∷ s) (h, (k, t)) = ground arith

skip-none : (width : Bytes → ℕ) (n : ℕ) (s : Bytes) → width s ≡ 0 → skip width n s ≡ s
unfolding skip
skip-none width zero s h = refl
skip-none width (suc n) s h = ground arith

reverse-IsPrintable : (s : Bytes) → IsPrintable s → IsPrintable (reverse s)
reverse-IsPrintable [] h = tt
reverse-IsPrintable (c ∷ s) (h, t) =
    subst IsPrintable (sym (reverse-cons c s)) (
      All-append (λ b. (33 ≤ b) × (b ≤ 126)) (reverse s) (c ∷ []) (reverse-IsPrintable s t) (h, tt))

-- A text of printable ASCII characters is its own `TrimSpace`.
pub trim_space-IsPrintable : (s : Bytes) → IsPrintable s → trim_space s ≡ s
unfolding trim_space
trim_space-IsPrintable s h =
    let front = skip-none space_width (length s) s (space_width-IsPrintable s h) in
    let back =
      skip-none last_space_width (length s) (reverse s)
        (last_space_width-IsPrintable (reverse s) (reverse-IsPrintable s h)) in
    rw (front, back) (reverse-reverse s)
