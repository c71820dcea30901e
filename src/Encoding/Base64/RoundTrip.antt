-- ===== src/Encoding/Base64/RoundTrip.antt =====
-- Decoding undoes encoding, and encoded text holds letters, digits, `-` and `_` only.
use aha.Prelude.{
  subst, ℕ, ◌<◌, false, ◌||◌, ◌≡◌, ◌≢◌, refl, List, [], ◌∷◌, Option, none, some, arith, All, ◌==◌,
}
use aha.Text.{Bytes, IsText, Lacks}
use aha.Encoding.Base64.{
  base64_char, base64_value, to_sextets, from_sextets, chars, sextets, push, encode, decode,
  decode_values,
}

IsSextets : List ℕ → Type 0
IsSextets = All (λ n. n < 64)

to_sextets-IsSextets : (s : Bytes) → IsText s → IsSextets (to_sextets s)
unfolding IsSextets to_sextets
to_sextets-IsSextets [] h = tt
to_sextets-IsSextets (a ∷ []) (p, h) = omega arith
to_sextets-IsSextets (a ∷ b ∷ []) (p, (q, h)) = omega arith
to_sextets-IsSextets (a ∷ b ∷ c ∷ s) (p, (q, (r, h))) =
    (omega arith, (omega arith, (omega arith, (omega arith, to_sextets-IsSextets s h))))

from-to_sextets : (s : Bytes) → IsText s → from_sextets (to_sextets s) ≡ some s
unfolding from_sextets to_sextets
from-to_sextets [] h = refl
from-to_sextets (a ∷ []) (p, h) = ground arith
from-to_sextets (a ∷ b ∷ []) (p, (q, h)) = ground arith
from-to_sextets (a ∷ b ∷ c ∷ s) (p, (q, (r, h))) = ground (arith, from-to_sextets s h)

value_char : (n : ℕ) → n < 64 → base64_value (base64_char n) ≡ some n
unfolding base64_char base64_value
value_char n h = ground arith

not_break : (n : ℕ) → n < 64 → base64_char n == 10 || base64_char n == 13 ≡ false
unfolding base64_char
not_break n h = ground arith

sextets-chars : (s : List ℕ) → IsSextets s → sextets (chars s) ≡ some s
unfolding sextets chars IsSextets
sextets-chars [] h = refl
sextets-chars (n ∷ s) (p, h) = rw (not_break n p, value_char n p, sextets-chars s h)

-- Decoding an encoded text gives the text.
pub decode-encode : (s : Bytes) → IsText s → decode (encode s) ≡ some s
unfolding encode decode
decode-encode s h =
    rw (sextets-chars (to_sextets s) (to_sextets-IsSextets s h)) (from-to_sextets s h)

char_ne_colon : (n : ℕ) → n < 64 → base64_char n ≢ b':'
unfolding base64_char
char_ne_colon n h = ground arith

chars-Lacks : (s : List ℕ) → IsSextets s → Lacks b':' (chars s)
unfolding chars IsSextets
chars-Lacks [] h = tt
chars-Lacks (n ∷ s) (p, h) = (char_ne_colon n p, chars-Lacks s h)

-- An encoded text holds no colon.
pub encode-Lacks : (s : Bytes) → IsText s → Lacks b':' (encode s)
unfolding encode
encode-Lacks s h = chars-Lacks (to_sextets s) (to_sextets-IsSextets s h)

abbrev SomeText : Option Bytes → Type 0
SomeText none = Unit
SomeText (some t) = IsText t

push-SomeText : (v : ℕ) (o : Option Bytes) → v < 256 → SomeText o → SomeText (push v o)
unfolding push
push-SomeText v none p h = tt
push-SomeText v (some t) p h = (p, h)

from_sextets-SomeText : (s : List ℕ) → SomeText (from_sextets s)
unfolding from_sextets
from_sextets-SomeText [] = tt
from_sextets-SomeText (a ∷ []) = tt
from_sextets-SomeText (a ∷ b ∷ []) = omega arith
from_sextets-SomeText (a ∷ b ∷ c ∷ []) = omega arith
from_sextets-SomeText (a ∷ b ∷ c ∷ d ∷ s) =
    push-SomeText _ _ (omega arith)
      (push-SomeText _ _ (omega arith) (push-SomeText _ _ (omega arith) (from_sextets-SomeText s)))

decode_values-SomeText : (o : Option (List ℕ)) → SomeText (decode_values o)
unfolding decode_values
decode_values-SomeText none = tt
decode_values-SomeText (some s) = from_sextets-SomeText s

-- What decoding gives is a text of bytes.
pub decode-IsText : (s t : Bytes) → decode s ≡ some t → IsText t
unfolding decode
decode-IsText s t h = subst SomeText h (decode_values-SomeText (sextets s))
