-- ===== src/Encoding/Hex/Laws.antt =====
-- Which texts encoding/hex decodes, and what it encodes to.
use aha.Prelude.{
  ◌&&◌, false, ℕ, ◌*◌, ◌/◌, ◌%◌, ◌<◌, true, ◌-◌, ◌≡◌, ◌≢◌, refl, [], ◌∷◌, none, some, arith, All,
  length, ltb,
}
use aha.Text.{Bytes, IsText}
use aha.Encoding.Hex.{Bool, pair, hex_digit, hex_value, is_lower_hex_digit, encode, decode}

abbrev pub IsLowerHex : Bytes → Type 0
IsLowerHex = All (λ c. is_lower_hex_digit c ≡ true)

encode_digit : (n : ℕ) → n < 16 → is_lower_hex_digit (hex_digit n) ≡ true
unfolding hex_digit
encode_digit n h = ground arith

pub encode-IsLowerHex : (s : Bytes) → IsText s → IsLowerHex (encode s)
unfolding encode
encode-IsLowerHex [] h = tt
encode-IsLowerHex (b ∷ s) (p, h) = (
  encode_digit (b / 16) (omega arith),
  (encode_digit (b % 16) (omega arith), encode-IsLowerHex s h),
)

pub length-encode : (s : Bytes) → length (encode s) ≡ 2 * length s
unfolding encode
length-encode [] = omega arith
length-encode (b ∷ s) = omega (arith, length-encode s)

value_digit : (n : ℕ) → n < 16 → hex_value (hex_digit n) ≡ some n
unfolding hex_digit hex_value
value_digit n h = ground arith

pub decode-encode : (s : Bytes) → IsText s → decode (encode s) ≡ some s
unfolding decode encode
decode-encode [] h = refl
decode-encode (b ∷ s) (p, h) = ground (
  arith,
  value_digit (b / 16) (omega arith),
  value_digit (b % 16) (omega arith),
  decode-encode s h,
)

abbrev pub is_upper : ℕ → Bool
is_upper c = ltb 64 c && ltb c 91

lower_of_value : (c : ℕ) → hex_value c ≢ none → is_upper c ≡ false → is_lower_hex_digit c ≡ true
unfolding hex_value
lower_of_value c h l = ground arith

decode_parts :
    (c d : ℕ) (s : Bytes)
    → decode (c ∷ d ∷ s) ≢ none
    → (hex_value c ≢ none) × (hex_value d ≢ none) × (decode s ≢ none)
unfolding decode
decode_parts c d s h = (λ e. h (rw (e, pair)), λ e. h (ground arith), λ e. h (ground arith))

-- Where a text decodes and has no upper-case letter, every byte is a lower-case digit.
pub lower_of_decode : (s : Bytes) → decode s ≢ none → All (λ c. is_upper c ≡ false) s → IsLowerHex s
lower_of_decode [] h l = tt
lower_of_decode (c ∷ []) h (p, l) = absurd (h (unfold decode in refl))
lower_of_decode (c ∷ d ∷ s) h (p, (q, l)) =
    let (hc, hd, hs) = decode_parts c d s h in
    (lower_of_value c hc p, (lower_of_value d hd q, lower_of_decode s hs l))

value_of_lower : (c : ℕ) → is_lower_hex_digit c ≡ true → hex_value c ≢ none
unfolding hex_value
value_of_lower c h = ground arith

-- Every text of lower-case digits with even length decodes.
pub decode_of_lower : (s : Bytes) (n : ℕ) → IsLowerHex s → length s ≡ 2 * n → decode s ≢ none
unfolding decode
decode_of_lower [] n h e = cc
decode_of_lower (c ∷ []) n h e = absurd (omega arith)
decode_of_lower (c ∷ d ∷ s) n (p, (q, h)) e =
    ground
      (arith, value_of_lower c p, value_of_lower d q, decode_of_lower s (n - 1) h (omega arith))
