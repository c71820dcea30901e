-- ===== src/Prelude/Int.antt =====
-- Signed integers: `negsuc n` is -(n + 1).
use Prim.Native.Nat.{ℕ, zero, suc, ◌+◌, ◌-◌, ◌%◌, ◌^◌}
use mathlib.Core.Bool.{Bool, true, false}
use mathlib.Core.Path.{◌≡◌, refl, ap}
use mathlib.Core.Logic.{◌↔◌}
use native.Mathlib.Omega.{arith}
use aha.Prelude.Tests.{==_iff, leb, ltb, ◌==◌, if◌then◌else◌}

pub data ℤ : Type 0 where
  pos : ℕ → ℤ
  negsuc : ℕ → ℤ

unfoldable pub is_negative : ℤ → Bool
is_negative (pos n) = false
is_negative (negsuc n) = true

abbrev pos_part : ℤ → ℕ
pos_part (pos n) = n
pos_part (negsuc n) = 0

abbrev neg_part : ℤ → ℕ
neg_part (pos n) = 0
neg_part (negsuc n) = n + 1

infixl 65 ◌+ℤ◌
unfoldable pub ◌+ℤ◌ : ℤ → ℤ → ℤ
a +ℤ b =
    let p = pos_part a + pos_part b in
    let n = neg_part a + neg_part b in if leb n p then pos (p - n) else negsuc (n - p - 1)

unfoldable pub int_eq : ℤ → ℤ → Bool
int_eq (pos a) (pos b) = a == b
int_eq (negsuc a) (negsuc b) = a == b
int_eq _ _ = false

unfoldable pub int_ltb : ℤ → ℤ → Bool
int_ltb (pos a) (pos b) = ltb a b
int_ltb (pos a) (negsuc b) = false
int_ltb (negsuc a) (pos b) = true
int_ltb (negsuc a) (negsuc b) = ltb b a

unfoldable pub neg : ℤ → ℤ
neg (pos zero) = pos 0
neg (pos (suc n)) = negsuc n
neg (negsuc n) = pos (suc n)

infixl 65 ◌-ℤ◌
abbrev pub ◌-ℤ◌ : ℤ → ℤ → ℤ
a -ℤ b = a +ℤ neg b

-- The value of a result in an `int64`: two's complement wraps around.
unfoldable pub wrap_int64 : ℤ → ℤ
wrap_int64 (pos n) = let r = n % 2 ^ 64 in if ltb r (2 ^ 63) then pos r else negsuc (2 ^ 64 - 1 - r)
wrap_int64 (negsuc n) =
    let r = n % 2 ^ 64 in if ltb r (2 ^ 63) then negsuc r else pos (2 ^ 64 - 1 - r)

-- `a < b` and `b ≤ c` give `a < c`.
pub lt_of_lt_le : (a b c : ℤ) → int_ltb a b ≡ true → int_ltb c b ≡ false → int_ltb a c ≡ true
unfolding int_ltb
lt_of_lt_le (pos a) (pos b) (pos c) h k = ground arith
lt_of_lt_le (pos a) (pos b) (negsuc c) h k = cc
lt_of_lt_le (pos a) (negsuc b) c h k = cc
lt_of_lt_le (negsuc a) (pos b) (pos c) h k = refl
lt_of_lt_le (negsuc a) (pos b) (negsuc c) h k = cc
lt_of_lt_le (negsuc a) (negsuc b) (pos c) h k = refl
lt_of_lt_le (negsuc a) (negsuc b) (negsuc c) h k = ground arith

-- `a ≤ b` and `b ≤ c` give `a ≤ c`.
pub le_of_le_le : (a b c : ℤ) → int_ltb b a ≡ false → int_ltb c b ≡ false → int_ltb c a ≡ false
unfolding int_ltb
le_of_le_le (pos a) (pos b) (pos c) h k = ground arith
le_of_le_le (pos a) (pos b) (negsuc c) h k = cc
le_of_le_le (pos a) (negsuc b) c h k = cc
le_of_le_le (negsuc a) (pos b) (pos c) h k = refl
le_of_le_le (negsuc a) (pos b) (negsuc c) h k = cc
le_of_le_le (negsuc a) (negsuc b) (pos c) h k = refl
le_of_le_le (negsuc a) (negsuc b) (negsuc c) h k = ground arith

pub le_refl : (a : ℤ) → int_ltb a a ≡ false
unfolding int_ltb
le_refl (pos a) = ground arith
le_refl (negsuc a) = ground arith

pub int_eq_iff : (a b : ℤ) → (int_eq a b ≡ true) ↔ (a ≡ b)
unfolding int_eq
int_eq_iff (pos a) (pos b) = (λ h. ap pos ((==_iff a b).0 h), λ h. ground (arith, ap pos_part h))
int_eq_iff (pos a) (negsuc b) = (λ h. cc, λ h. cc)
int_eq_iff (negsuc a) (pos b) = (λ h. cc, λ h. cc)
int_eq_iff (negsuc a) (negsuc b) =
    (λ h. ap negsuc ((==_iff a b).0 h), λ h. ground (arith, ap neg_part h))
