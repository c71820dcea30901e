-- ===== src/Text/Equality.antt =====
-- Bytes, literals and `==` on Go strings.
use Prim.Native.Char.{code}
use aha.Prelude.{
  ℕ, ◌<◌, String, Bool, true, false, ◌&&◌, ◌≡◌, refl, ◌↔◌, List, [], ◌∷◌, arith, ◌==◌, All,
  if◌then◌else◌,
}

-- A Go string is a sequence of bytes.
abbrev pub Bytes : Type 0
Bytes = List ℕ

abbrev pub IsByte : ℕ → Type 0
IsByte b = b < 256

abbrev pub IsText : Bytes → Type 0
IsText = All IsByte

-- The bytes of a literal, which is ASCII.
abbrev pub codes : String → Bytes
codes String.[] = []
codes (String.◌∷◌ c s) = code c ∷ codes s

unfoldable pub text_eq : Bytes → Bytes → Bool
text_eq [] [] = true
text_eq [] (b ∷ t) = false
text_eq (a ∷ s) [] = false
text_eq (a ∷ s) (b ∷ t) = a == b && text_eq s t

pub text_eq_iff : (s t : Bytes) → (text_eq s t ≡ true) ↔ (s ≡ t)
unfolding text_eq
text_eq_iff [] [] = (λ _. refl, λ _. refl)
text_eq_iff [] (b ∷ t) = (λ h. cc, λ h. cc)
text_eq_iff (a ∷ s) [] = (λ h. cc, λ h. cc)
text_eq_iff (a ∷ s) (b ∷ t) =
    (λ h. ground (arith, text_eq_iff s t), λ h. ground (arith, text_eq_iff s t))

pub text_eq_refl : (s : Bytes) → text_eq s s ≡ true
text_eq_refl s = (text_eq_iff s s).1 refl

-- membership among texts, for Go's `map[string]bool`
unfoldable pub contains : List Bytes → Bytes → Bool
contains [] t = false
contains (s ∷ ss) t = if text_eq s t then true else contains ss t
