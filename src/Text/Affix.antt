-- ===== src/Text/Affix.antt =====
-- `strings.HasPrefix`, `TrimPrefix` and `ContainsAny`.
use aha.Prelude.{
  ℕ, Bool, true, false, ◌&&◌, ◌||◌, ◌≡◌, refl, [], ◌∷◌, ◌++◌, arith, ◌==◌, if◌then◌else◌, reverse,
  take, length, ◌-◌,
}
use aha.Text.Equality.{Bytes}

unfoldable pub has_prefix : Bytes → Bytes → Bool
has_prefix s [] = true
has_prefix [] (p ∷ ps) = false
has_prefix (c ∷ s) (p ∷ ps) = c == p && has_prefix s ps

abbrev drop_prefix : Bytes → Bytes → Bytes
drop_prefix s [] = s
drop_prefix [] (p ∷ ps) = []
drop_prefix (c ∷ s) (p ∷ ps) = drop_prefix s ps

unfoldable pub trim_prefix : Bytes → Bytes → Bytes
trim_prefix s p = if has_prefix s p then drop_prefix s p else s

unfoldable pub contains_byte : Bytes → ℕ → Bool
contains_byte [] b = false
contains_byte (c ∷ s) b = c == b || contains_byte s b

-- `strings.ContainsAny` with a set of ASCII characters
unfoldable pub contains_any : Bytes → Bytes → Bool
contains_any [] set = false
contains_any (c ∷ s) set = contains_byte set c || contains_any s set

pub has_prefix-append : (p s : Bytes) → has_prefix (p ++ s) p ≡ true
unfolding has_prefix
has_prefix-append [] s = refl
has_prefix-append (c ∷ p) s = ground (arith, has_prefix-append p s)

drop_prefix-append : (p s : Bytes) → drop_prefix (p ++ s) p ≡ s
drop_prefix-append [] s = refl
drop_prefix-append (c ∷ p) s = drop_prefix-append p s

pub trim_prefix-append : (p s : Bytes) → trim_prefix (p ++ s) p ≡ s
unfolding trim_prefix
trim_prefix-append p s = ground (arith, has_prefix-append p s, drop_prefix-append p s)

append-drop_prefix : (s p : Bytes) → has_prefix s p ≡ true → p ++ drop_prefix s p ≡ s
unfolding has_prefix
append-drop_prefix s [] h = refl
append-drop_prefix [] (p ∷ ps) h = cc
append-drop_prefix (c ∷ s) (p ∷ ps) h = ground (arith, append-drop_prefix s ps)

-- A text with a prefix is the prefix and what `TrimPrefix` leaves.
pub append-trim_prefix : (s p : Bytes) → has_prefix s p ≡ true → p ++ trim_prefix s p ≡ s
unfolding trim_prefix
append-trim_prefix s p h = ground (arith, append-drop_prefix s p h)

-- `strings.Contains`
unfoldable pub contains_text : Bytes → Bytes → Bool
unfolding has_prefix
contains_text [] p = has_prefix [] p
contains_text (c ∷ s) p = has_prefix (c ∷ s) p || contains_text s p

unfoldable pub trim_suffix : Bytes → Bytes → Bytes
trim_suffix s p = if has_prefix (reverse s) (reverse p) then take (length s - length p) s else s
