-- ===== src/Model/Identity/Parse.antt =====
-- The constructors of internal/model/identity.go accept exactly what `Valid` holds of.
use aha.Text.Space.{is_blank}
use aha.Text.Space.Laws.{not_blank_of_head}
use aha.Prelude.{
  All-append, sym, ◌∙◌, err, subst, Result, ◌++◌, true, false, ◌≡◌, ◌≢◌, refl, ◌↔◌, [], ◌∷◌, arith,
  All, length, none, ok,
}
use aha.Text.{
  IsByte, text_eq_iff, IsText, trim_prefix-append, has_prefix-append, codes, append-trim_prefix,
  contains_any, has_prefix, trim_prefix, contains_byte, Bytes, text_eq,
}
use aha.Encoding.Hex
use aha.Encoding.Hex.Laws.{lower_of_decode, is_upper, IsLowerHex, decode_of_lower}
use aha.Model.Identity.{
  EntryId, new_entry_id, line_breaks, session_key_of, IdentityError, sk1, SessionKey,
  parse_session_key, Sha256Hex, parse_sha256_hex, to_lower_ascii, is_lower_hex,
}
use aha.Model.Identity.Valid

pub is_lower_hex_iff : (s : Bytes) → (is_lower_hex s ≡ true) ↔ IsLowerHex s
unfolding is_lower_hex
is_lower_hex_iff [] = (λ _. tt, λ _. refl)
is_lower_hex_iff (c ∷ s) =
    (λ h. ground (arith, is_lower_hex_iff s), λ (p, h). ground (arith, is_lower_hex_iff s))

no_upper : (s : Bytes) → text_eq (to_lower_ascii s) s ≡ true → All (λ c. is_upper c ≡ false) s
unfolding to_lower_ascii text_eq
no_upper [] h = tt
no_upper (c ∷ s) h = (ground arith, no_upper s (ground arith))

lowering : (s : Bytes) → IsLowerHex s → text_eq (to_lower_ascii s) s ≡ true
unfolding to_lower_ascii text_eq
lowering [] h = refl
lowering (c ∷ s) (p, h) = ground (arith, lowering s h)

accepted :
    (s : Bytes) → Hex.decode s ≢ none → text_eq (to_lower_ascii s) s ≡ true → is_lower_hex s ≡ true
accepted s h l = (is_lower_hex_iff s).1 (lower_of_decode s h (no_upper s l))

lower_accepted :
    (s : Bytes)
    → length s ≡ 64
    → is_lower_hex s ≡ true
    → (Hex.decode s ≢ none) × (text_eq (to_lower_ascii s) s ≡ true)
lower_accepted s e h =
    let k = (is_lower_hex_iff s).0 h in (decode_of_lower s 32 k (omega arith), lowering s k)

-- `ParseSHA256Hex` succeeds exactly on the texts of 64 lower-case hexadecimal digits, those that make
-- a valid value, and the value is the text.
pub parse_sha256_hex_iff :
    (s : Bytes) (v : Sha256Hex)
    → (parse_sha256_hex s ≡ ok v) ↔ ((v.value ≡ s) × (Valid.sha256_hex v ≡ true))
unfolding parse_sha256_hex Valid.sha256_hex
parse_sha256_hex_iff s v = (
  λ h. ground (arith, accepted s),
  λ (e, h). ground (arith, lower_accepted s, lower_accepted v.value),
)

pub parse_sha256_hex_of_lower :
    (s : Bytes)
    → length s ≡ 64
    → is_lower_hex s ≡ true
    → parse_sha256_hex s ≡ ok (record { value = s })
unfolding Valid.sha256_hex
parse_sha256_hex_of_lower s e h =
    (parse_sha256_hex_iff s (record { value = s })).1 (refl, ground arith)

contains_any-lower : (s : Bytes) → IsLowerHex s → contains_any s line_breaks ≡ false
unfolding contains_any contains_byte
contains_any-lower [] h = refl
contains_any-lower (c ∷ s) (p, h) = ground (arith, contains_any-lower s h)

key_text_of_lower :
    (t : Bytes)
    → IsLowerHex t
    → parse_session_key (sk1 ++ t) ≡ session_key_of (sk1 ++ t) (parse_sha256_hex t)
unfolding parse_session_key contains_any contains_byte
key_text_of_lower t h = rw (
  not_blank_of_head b's' (codes "k1_" ++ t) refl,
  contains_any-lower t h,
  has_prefix-append sk1 t,
  trim_prefix-append sk1 t,
)

key_text_valid :
    (t : Bytes)
    → length t ≡ 64
    → is_lower_hex t ≡ true
    → parse_session_key (sk1 ++ t) ≡ ok (record { value = sk1 ++ t })
key_text_valid t e h =
    rw (key_text_of_lower t ((is_lower_hex_iff t).0 h)) (rw (parse_sha256_hex_of_lower t e h))

pub valid_key_text :
    (t : Bytes)
    → (Valid.session_key (record { value = sk1 ++ t }) ≡ true)
      ↔ (length t ≡ 64) × (is_lower_hex t ≡ true)
unfolding Valid.session_key has_prefix
valid_key_text t = (λ h. ground arith, λ h. ground arith)

-- An accepted key has the prefix, and a digest behind it.
session_key_parts :
    (s : Bytes) (k : SessionKey) (r : Result IdentityError Sha256Hex)
    → parse_sha256_hex (trim_prefix s sk1) ≡ r
    → parse_session_key s ≡ ok k
    → (k.value ≡ s)
      × (has_prefix s sk1 ≡ true)
      × (length (trim_prefix s sk1) ≡ 64)
      × (is_lower_hex (trim_prefix s sk1) ≡ true)
unfolding parse_session_key Valid.sha256_hex
session_key_parts s k (ok v) e h = ground (arith, (parse_sha256_hex_iff (trim_prefix s sk1) v).0 e)
session_key_parts s k (err x) e h = ground arith

abbrev IsKeyText : Bytes → Type 0
IsKeyText u = Valid.session_key (record { value = u }) ≡ true

valid_has_prefix : (k : SessionKey) → Valid.session_key k ≡ true → has_prefix k.value sk1 ≡ true
unfolding Valid.session_key
valid_has_prefix k h = ground arith

-- `ParseSessionKey` succeeds exactly on the texts that make a valid key, the prefix "sk1_" and 64
-- lower-case hexadecimal digits, and the key is the text.
pub parse_session_key_iff :
    (s : Bytes) (k : SessionKey)
    → (parse_session_key s ≡ ok k) ↔ ((k.value ≡ s) × (Valid.session_key k ≡ true))
parse_session_key_iff s k = (
  λ h.
      let (e, p, l, x) = session_key_parts s k (parse_sha256_hex (trim_prefix s sk1)) refl h in
      (
        e,
        subst IsKeyText (append-trim_prefix s sk1 p ∙ sym e)
            ((valid_key_text (trim_prefix s sk1)).1 (l, x)),
      ),
  λ (e, v).
      let t = trim_prefix k.value sk1 in
      let q = append-trim_prefix k.value sk1 (valid_has_prefix k v) in
      let (l, x) = (valid_key_text t).0 (subst IsKeyText (sym q) v) in
      subst (λ w. parse_session_key w ≡ ok k) e
        (subst (λ u. parse_session_key u ≡ ok (record { value = u })) q (key_text_valid t l x)),
)

lower-IsText : (s : Bytes) → IsLowerHex s → IsText s
lower-IsText [] h = tt
lower-IsText (c ∷ s) (p, h) = (ground arith, lower-IsText s h)

pub session_key-IsText : (k : SessionKey) → Valid.session_key k ≡ true → IsText k.value
session_key-IsText k v =
    let t = trim_prefix k.value sk1 in
    let q = append-trim_prefix k.value sk1 (valid_has_prefix k v) in
    let (l, x) = (valid_key_text t).0 (subst IsKeyText (sym q) v) in
    subst IsText q
      (All-append IsByte sk1 t (omega arith) (lower-IsText t ((is_lower_hex_iff t).0 x)))

blank_nil : is_blank [] ≡ true
unfolding is_blank
blank_nil = refl

-- An entry identity that `NewEntryID` accepts is its text, and valid.
pub new_entry_id_valid :
    (s : Bytes) (e : EntryId) → new_entry_id s ≡ ok e → (e.value ≡ s) × (Valid.entry_id e ≡ true)
unfolding new_entry_id Valid.entry_id
new_entry_id_valid s e h = ground (arith, text_eq_iff s [], text_eq_iff e.value [], blank_nil)

pub parse_sha256_hex_valid :
    (v : Sha256Hex) → Valid.sha256_hex v ≡ true → parse_sha256_hex v.value ≡ ok v
parse_sha256_hex_valid v h = (parse_sha256_hex_iff v.value v).1 (refl, h)
