-- ===== src/Text/Decimal.antt =====
-- Integers in decimal: `%d` and `%03d` of package fmt.
use aha.Prelude.{
  ℕ, zero, suc, ◌+◌, ◌*◌, ◌/◌, ◌%◌, ◌<◌, ltb, ◌≡◌, refl, [], ◌∷◌, ◌++◌, if◌then◌else◌, length, ◌-◌,
  arith,
}
use aha.Prelude.Int.{ℤ, pos, negsuc}
use aha.Text.Equality.{Bytes, codes}

-- The digits in front of those so far, with a bound on their number.
digits : ℕ → ℕ → Bytes → Bytes
digits zero n later = later
digits (suc k) n later =
    let rest = digits k (n / 10) ((48 + n % 10) ∷ later) in
    if ltb n 10 then (48 + n) ∷ later else rest

-- A number has at most as many digits as it counts, and one more.
unfoldable pub decimal : ℕ → Bytes
unfolding digits
decimal n = digits (suc n) n []

zeros : ℕ → Bytes
zeros zero = []
zeros (suc n) = codes "0" ++ zeros n

unfoldable pub format_int : ℤ → Bytes
format_int (pos n) = decimal n
format_int (negsuc n) = codes "-" ++ decimal (suc n)

-- `%03d`: the sign counts as one of the three places.
unfoldable pub format_int3 : ℤ → Bytes
unfolding zeros
format_int3 (pos n) = zeros (3 - length (decimal n)) ++ decimal n
format_int3 (negsuc n) = codes "-" ++ zeros (2 - length (decimal (suc n))) ++ decimal (suc n)

-- What a text of digits means, after the number read so far.
abbrev pub value_from : ℕ → Bytes → ℕ
value_from n [] = n
value_from n (c ∷ s) = value_from (n * 10 + (c - 48)) s

decimal_of_numbers : decimal 4096 ≡ codes "4096"
unfolding decimal
decimal_of_numbers = refl

value-digits :
    (k n : ℕ) (later : Bytes) → n < k → value_from 0 (digits k n later) ≡ value_from n later
unfolding digits
value-digits (suc k) n later h = ground (arith, value-digits k (n / 10) ((48 + n % 10) ∷ later))
value-digits zero n later h = omega arith

-- The digits of a number mean that number.
pub value-decimal : (n : ℕ) → value_from 0 (decimal n) ≡ n
unfolding decimal
value-decimal n = value-digits (suc n) n [] (omega arith)
