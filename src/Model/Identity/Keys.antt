-- ===== src/Model/Identity/Keys.antt =====
-- `NewSessionKey` of internal/model/identity.go: the key is valid, and it tells sessions apart as
-- far as SHA-256 does.
use aha.Encoding.Hex.Laws.{encode-IsLowerHex, length-encode, decode-encode}
use aha.Model.Identity.Parse.{parse_session_key_iff, is_lower_hex_iff, valid_key_text}
use aha.Prelude.{
  refl, subst, ◌∙◌, sym, drop, Bool-cases, [], append-inj, ◌^◌, ◌<◌, ◌≡◌, ◌≢◌, ◌⊎◌, inl, inr, ◌++◌,
  arith, length, ok, true, ap,
}
use aha.Text.{text_eq_iff, Bytes, IsText, text_eq}
use aha.Encoding.Hex
use aha.Encoding.Binary.{put_uint64, put_uint64-inj}
use aha.Model.Identity.{
  parse_session_key, SessionKey, length_prefixed, key_preimage, new_session_key, sk1,
}
use aha.Model.Identity.Valid

-- What the program relies on of SHA-256: a digest is 32 bytes.
abbrev pub IsDigest : (Bytes → Bytes) → Type 0
IsDigest sha256 = (s : Bytes) → (length (sha256 s) ≡ 32) × IsText (sha256 s)

-- A length in Go fits 63 bits.
abbrev pub FitsInt : Bytes → Type 0
FitsInt s = length s < 2 ^ 63

length_prefixed-inj :
    (s t r q : Bytes)
    → FitsInt s
    → FitsInt t
    → length_prefixed s ++ r ≡ length_prefixed t ++ q
    → (s ≡ t) × (r ≡ q)
unfolding length_prefixed put_uint64
length_prefixed-inj s t r q hs ht e =
    let (l, k) =
      put_uint64-inj (length s) (length t) (s ++ r) (t ++ q) (omega arith) (omega arith) (cc) in
    append-inj s t l k

-- The bytes hashed determine the three parts: no two different triples are hashed alike.
key_preimage-inj :
    (s m x s' m' x' : Bytes)
    → FitsInt s × FitsInt m × FitsInt x
    → FitsInt s' × FitsInt m' × FitsInt x'
    → key_preimage s m x ≡ key_preimage s' m' x'
    → (s ≡ s') × (m ≡ m') × (x ≡ x')
unfolding key_preimage
key_preimage-inj s m x s' m' x' (a, b, c) (a', b', c') e =
    let (p, e1) = length_prefixed-inj s s' _ _ a a' e in
    let (q, e2) = length_prefixed-inj m m' _ _ b b' e1 in
    let (r, e3) = length_prefixed-inj x x' [] [] c c' (ap (λ (u : Bytes). u ++ []) e2) in (p, q, r)

module _ (sha256 : Bytes → Bytes) where
  new_session_key_value :
      (s m x : Bytes) (k : SessionKey)
      → new_session_key sha256 s m x ≡ ok k
      → k.value ≡ sk1 ++ Hex.encode (sha256 (key_preimage s m x))
  unfolding new_session_key
  new_session_key_value s m x k h = ground arith

  -- Where SHA-256 gives digests of 32 bytes, every key that `NewSessionKey` returns is valid, and
  -- `ParseSessionKey` takes its text back to the same key.
  pub new_session_key_valid :
      IsDigest sha256
      → (s m x : Bytes) (k : SessionKey) → new_session_key sha256 s m x ≡ ok k
      → (Valid.session_key k ≡ true) × (parse_session_key k.value ≡ ok k)
  new_session_key_valid d s m x k h =
      let t = sha256 (key_preimage s m x) in
      let (l, b) = d (key_preimage s m x) in
      let v : Valid.session_key (record { value = sk1 ++ Hex.encode t }) ≡ true =
        (valid_key_text (Hex.encode t)).1 (
          omega (arith, length-encode t),
          (is_lower_hex_iff (Hex.encode t)).1 (encode-IsLowerHex t b),
        ) in
      let w : Valid.session_key k ≡ true =
        subst (λ u. Valid.session_key (record { value = u }) ≡ true)
          (sym (new_session_key_value s m x k h)) v in
      (w, (parse_session_key_iff k.value k).1 (refl, w))

  pub encode_inj : (s t : Bytes) → IsText s → IsText t → Hex.encode s ≡ Hex.encode t → s ≡ t
  encode_inj s t hs ht e = cc (decode-encode s hs, decode-encode t ht, ap Hex.decode e)

  -- Where SHA-256 gives digests of 32 bytes and every text is shorter than 2^63 bytes, two calls of
  -- `NewSessionKey` that return the same key were given the same source, machine and session, or found
  -- a collision of SHA-256.
  pub new_session_key-inj :
      IsDigest sha256
      → (s m x s' m' x' : Bytes) (k : SessionKey) → FitsInt s × FitsInt m × FitsInt x
      → FitsInt s' × FitsInt m' × FitsInt x'
      → new_session_key sha256 s m x ≡ ok k
      → new_session_key sha256 s' m' x' ≡ ok k
      → ((s ≡ s') × (m ≡ m') × (x ≡ x'))
        ⊎ ((key_preimage s m x ≢ key_preimage s' m' x')
            × (sha256 (key_preimage s m x) ≡ sha256 (key_preimage s' m' x')))
  new_session_key-inj d s m x s' m' x' k f f' h h' =
      let p = key_preimage s m x in
      let q = key_preimage s' m' x' in
      elim (Bool-cases (text_eq p q)) [
        | inl e ↦ inl (key_preimage-inj s m x s' m' x' f f' ((text_eq_iff p q).0 e))
        | inr n ↦ inr (
          λ e. cc (n, (text_eq_iff p q).1 e),
          encode_inj (sha256 p) (sha256 q) (d p).1 (d q).1 (
              ap (drop 4)
                (sym (new_session_key_value s m x k h) ∙ new_session_key_value s' m' x' k h')),
        )
      ]
