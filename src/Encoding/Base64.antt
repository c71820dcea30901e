-- ===== src/Encoding/Base64.antt =====
-- encoding/base64, the codec `RawURLEncoding`: four characters for three bytes, no padding.
pub mod RoundTrip
use aha.Prelude.{
  ℕ, ◌+◌, ◌-◌, ◌*◌, ◌/◌, ◌%◌, ◌^◌, Bool, ◌&&◌, ◌||◌, List, [], ◌∷◌, Option, none, some, ltb, leb,
  ◌==◌, if◌then◌else◌, ◌≡◌, refl,
}
use aha.Text.{Bytes, codes}

-- The alphabet: letters, digits, `-` and `_`.
base64_char : ℕ → ℕ
base64_char n =
    if ltb n 26
    then n + 65
    else if ltb n 52
    then n + 71
    else if ltb n 62
    then n - 4
    else if n == 62
    then b'-'
    else b'_'

base64_value : ℕ → Option ℕ
base64_value c =
    if leb b'A' c && leb c b'Z'
    then some (c - 65)
    else if leb b'a' c && leb c b'z'
    then some (c - 71)
    else if leb b'0' c && leb c b'9'
    then some (c + 4)
    else if c == b'-'
    then some 62
    else if c == b'_'
    then some 63
    else none

-- Six bits at a time, the last group filled up with zeros.
to_sextets : Bytes → List ℕ
to_sextets [] = []
to_sextets (a ∷ []) = a / 4 ∷ a % 4 * 16 ∷ []
to_sextets (a ∷ b ∷ []) = a / 4 ∷ (a % 4 * 16 + b / 16) ∷ b % 16 * 4 ∷ []
to_sextets (a ∷ b ∷ c ∷ s) =
    a / 4 ∷ (a % 4 * 16 + b / 16) ∷ (b % 16 * 4 + c / 64) ∷ c % 64 ∷ to_sextets s

chars : List ℕ → Bytes
chars [] = []
chars (n ∷ s) = base64_char n ∷ chars s

unfoldable pub encode : Bytes → Bytes
unfolding chars to_sextets base64_char
encode s = chars (to_sextets s)

push : ℕ → Option (List ℕ) → Option (List ℕ)
push v none = none
push v (some s) = some (v ∷ s)

push_value : Option ℕ → Option (List ℕ) → Option (List ℕ)
push_value none r = none
push_value (some v) r = push v r

-- The values of the characters. Line breaks are passed over; another character is an error.
sextets : Bytes → Option (List ℕ)
unfolding push push_value base64_value
sextets [] = some []
sextets (c ∷ s) =
    let rest = sextets s in if c == 10 || c == 13 then rest else push_value (base64_value c) rest

-- Left-over bits of a last group of two or three characters are dropped, whatever they are; a last
-- group of one character is an error.
from_sextets : List ℕ → Option Bytes
unfolding push
from_sextets [] = some []
from_sextets (a ∷ []) = none
from_sextets (a ∷ b ∷ []) = some ((a * 4 + b / 16) % 256 ∷ [])
from_sextets (a ∷ b ∷ c ∷ []) = some ((a * 4 + b / 16) % 256 ∷ (b * 16 + c / 4) % 256 ∷ [])
from_sextets (a ∷ b ∷ c ∷ d ∷ s) =
    push ((a * 4 + b / 16) % 256)
      (push ((b * 16 + c / 4) % 256) (push ((c * 64 + d) % 256) (from_sextets s)))

decode_values : Option (List ℕ) → Option Bytes
decode_values none = none
decode_values (some s) = from_sextets s

unfoldable pub decode : Bytes → Option Bytes
unfolding decode_values sextets from_sextets
decode s = decode_values (sextets s)

encode_example : encode (codes "a?b~") ≡ codes "YT9ifg"
unfolding encode
encode_example = refl

decode_example : decode (codes "YT\n9ifg") ≡ some (codes "a?b~")
unfolding decode
decode_example = refl

-- The bits behind the last byte are ignored.
decode_not_canonical : decode (codes "YT9ifh") ≡ some (codes "a?b~")
unfolding decode
decode_not_canonical = refl
