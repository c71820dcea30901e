-- ===== src/Text/Space/Fields.antt =====
-- `strings.Fields` gives words without white space.
use aha.Prelude.{ℕ, zero, suc, false, [], ◌∷◌, ◌++◌, ◌≡◌, refl, arith, All, All-append}
use aha.Text.Equality.{Bytes}
use aha.Text.Space.{is_ascii_space, space_width, fields_from, fields, emit}

-- No byte is white space of ASCII.
abbrev pub IsWord : Bytes → Type 0
IsWord w = All (λ c. is_ascii_space c ≡ false) w

space_width-first : (c : ℕ) (s : Bytes) → space_width (c ∷ s) ≡ 0 → is_ascii_space c ≡ false
unfolding space_width
space_width-first c [] h = ground arith
space_width-first c (b ∷ []) h = ground arith
space_width-first c (b ∷ a ∷ s) h = ground arith

emit-IsWord : (w : Bytes) → IsWord w → All IsWord (emit w)
emit-IsWord [] h = tt
emit-IsWord (c ∷ w) h = (h, tt)

stepped :
    (w : ℕ) (c : ℕ) (word s : Bytes)
    → IsWord word
    → (w ≡ 0 → is_ascii_space c ≡ false)
    → ((k : ℕ) (v : Bytes) → IsWord v → All IsWord (fields_from k v s))
    → All IsWord (elim w [
      | zero ↦ fields_from zero (word ++ c ∷ []) s
      | suc v ↦ emit word ++ fields_from v [] s
    ])
stepped zero c word s h f k =
    k zero (word ++ c ∷ [])
      (All-append (λ b. is_ascii_space b ≡ false) word (c ∷ []) h (f refl, tt))
stepped (suc v) c word s h f k =
    All-append IsWord (emit word) (fields_from v [] s) (emit-IsWord word h) (k v [] tt)

fields_from-IsWord :
    (s : Bytes) (k : ℕ) (word : Bytes) → IsWord word → All IsWord (fields_from k word s)
unfolding fields_from
fields_from-IsWord [] k word h = emit-IsWord word h
fields_from-IsWord (c ∷ s) (suc k) word h = fields_from-IsWord s k word h
fields_from-IsWord (c ∷ s) zero word h =
    stepped (space_width (c ∷ s)) c word s h (space_width-first c s) (fields_from-IsWord s)

pub fields-IsWord : (s : Bytes) → All IsWord (fields s)
unfolding fields
fields-IsWord s = fields_from-IsWord s 0 [] tt
