-- ===== src/Encoding/Hex.antt =====
-- encoding/hex: two digits for each byte. Decoding takes both cases, encoding writes lower case.
pub mod Laws
use aha.Prelude.{
  ℕ, ◌+◌, ◌-◌, ◌*◌, ◌/◌, ◌%◌, Bool, ◌&&◌, ◌||◌, List, [], ◌∷◌, Option, none, some, ltb, leb,
  if◌then◌else◌, ◌≡◌, refl,
}
use aha.Text.{Bytes, codes}

hex_digit : ℕ → ℕ
hex_digit n = if ltb n 10 then 48 + n else 87 + n

hex_value : ℕ → Option ℕ
hex_value c =
    if leb b'0' c && leb c b'9'
    then some (c - 48)
    else if leb b'a' c && leb c b'f'
    then some (c - 87)
    else if leb b'A' c && leb c b'F'
    then some (c - 55)
    else none

abbrev pub is_lower_hex_digit : ℕ → Bool
is_lower_hex_digit c = (leb b'0' c && leb c b'9') || (leb b'a' c && leb c b'f')

unfoldable pub encode : Bytes → Bytes
unfolding hex_digit
encode [] = []
encode (b ∷ s) = hex_digit (b / 16) ∷ hex_digit (b % 16) ∷ encode s

pair : Option ℕ → Option ℕ → Option Bytes → Option Bytes
pair (some h) (some l) (some s) = some ((h * 16 + l) ∷ s)
pair _ _ _ = none

-- An odd length and a byte that is no digit are errors.
unfoldable pub decode : Bytes → Option Bytes
unfolding pair hex_value
decode [] = some []
decode (c ∷ []) = none
decode (c ∷ d ∷ s) = pair (hex_value c) (hex_value d) (decode s)

decode_example : decode (codes "0aFf") ≡ some (10 ∷ 255 ∷ [])
unfolding decode
decode_example = refl
