-- ===== src/Encoding/Binary.antt =====
-- `binary.BigEndian.PutUint64`.
use aha.Prelude.{drop, ap, arith, ◌≡◌, ◌+◌, ◌++◌, ◌*◌, ◌<◌, ℕ, ◌/◌, ◌%◌, ◌^◌, [], ◌∷◌}
use aha.Text.{Bytes}

-- The eight bytes of a 64-bit number, the highest first.
unfoldable pub put_uint64 : ℕ → Bytes
put_uint64 n =
    n / 2 ^ 56 % 256
    ∷ n / 2 ^ 48 % 256
    ∷ n / 2 ^ 40 % 256
    ∷ n / 2 ^ 32 % 256
    ∷ n / 2 ^ 24 % 256
    ∷ n / 2 ^ 16 % 256
    ∷ n / 2 ^ 8 % 256
    ∷ n % 256
    ∷ []

-- Reads the eight bytes back.
abbrev uint64 : Bytes → ℕ
uint64 (a ∷ b ∷ c ∷ d ∷ e ∷ f ∷ g ∷ h ∷ s) =
    a * 2 ^ 56 + b * 2 ^ 48 + c * 2 ^ 40 + d * 2 ^ 32 + e * 2 ^ 24 + f * 2 ^ 16 + g * 2 ^ 8 + h
uint64 _ = 0

uint64-put_uint64 : (n : ℕ) (s : Bytes) → n < 2 ^ 64 → uint64 (put_uint64 n ++ s) ≡ n
unfolding put_uint64
uint64-put_uint64 n s h = omega arith

pub put_uint64-inj :
    (n m : ℕ) (s t : Bytes)
    → n < 2 ^ 64
    → m < 2 ^ 64
    → put_uint64 n ++ s ≡ put_uint64 m ++ t
    → (n ≡ m) × (s ≡ t)
put_uint64-inj n m s t h k e = (
  omega (arith, uint64-put_uint64 n s h, uint64-put_uint64 m t k, ap uint64 e),
  unfold put_uint64 in ap (drop 8) e,
)
