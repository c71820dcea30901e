-- ===== src/Model/Ref/RoundTrip.antt =====
-- `FormatRef` and `ParseRef` of internal/model/ref.go undo one another.
use aha.Prelude.{
  inr, err, sym, inl, Result, subst, >>=-eq-ok, Bool-cases, [], arith, some, List, ◌∷◌, ◌++◌, true,
  ◌≡◌, ok,
}
use aha.Text.{
  trim_prefix, split, has_prefix, split-Lacks, split-append, trim_prefix-append, has_prefix-append,
  Bytes, IsText,
}
use aha.Encoding.Base64
use aha.Encoding.Base64.RoundTrip.{decode-encode, encode-Lacks, decode-IsText}
use aha.Model.Identity.{
  IdentityError, SessionKey, EntryId, parse_session_key, new_entry_id, parse_sha256_hex,
}
use aha.Model.Identity.Valid
use aha.Model.Identity.Parse.{
  parse_session_key_iff, new_entry_id_valid, session_key-IsText, parse_sha256_hex_iff,
}
use aha.Model.Ref.{
  RefError, Ref, message, session, artifact, msg_v1, session_v1, artifact_v1, is_valid, ref_text,
  format_ref, parse_ref, parse_message, parse_session, parse_artifact, unb64, lift,
}

-- Each part of the reference came from its constructor; a Go string is a text of bytes.
abbrev pub IsMade : Ref → Type 0
IsMade (message key entry) =
    (parse_session_key key.value ≡ ok key)
    × (new_entry_id entry.value ≡ ok entry)
    × IsText entry.value
IsMade (session key) = parse_session_key key.value ≡ ok key
IsMade (artifact sha) = parse_sha256_hex sha.value ≡ ok sha

key_valid : (k : SessionKey) → parse_session_key k.value ≡ ok k → Valid.session_key k ≡ true
key_valid k h = ((parse_session_key_iff k.value k).0 h).1

pub IsMade-is_valid : (r : Ref) → IsMade r → is_valid r ≡ true
unfolding is_valid
IsMade-is_valid (message key entry) (h, g, t) =
    rw (key_valid key h) (new_entry_id_valid entry.value entry g).1
IsMade-is_valid (session key) h = key_valid key h
IsMade-is_valid (artifact sha) h = ((parse_sha256_hex_iff sha.value sha).0 h).1

key-IsText : (k : SessionKey) → parse_session_key k.value ≡ ok k → IsText k.value
key-IsText k h = session_key-IsText k (key_valid k h)

message_parts :
    (key : SessionKey) (entry : EntryId)
    → IsMade (message key entry)
    → parse_message (Base64.encode key.value ∷ Base64.encode entry.value ∷ [])
      ≡ ok (message key entry)
unfolding parse_message
message_parts key entry (h, g, t) =
    ground (arith, decode-encode key.value (key-IsText key h), decode-encode entry.value t)

session_part :
    (key : SessionKey)
    → IsMade (session key)
    → parse_session (Base64.encode key.value) ≡ ok (session key)
unfolding parse_session
session_part key h = ground (arith, decode-encode key.value (key-IsText key h))

parse-ref_text : (r : Ref) → IsMade r → parse_ref (ref_text r) ≡ ok r
unfolding parse_ref ref_text
parse-ref_text (message key entry) (h, g, t) =
    let a = Base64.encode key.value in
    let b = Base64.encode entry.value in
    rw
      (
        has_prefix-append msg_v1 (a ++ b':' ∷ b),
        trim_prefix-append msg_v1 (a ++ b':' ∷ b),
        split-append a b b':' (encode-Lacks key.value (key-IsText key h)),
        split-Lacks b b':' (encode-Lacks entry.value t),
      )
      (message_parts key entry (h, g, t))
parse-ref_text (session key) h =
    let a = Base64.encode key.value in
    rw (has_prefix-append session_v1 a, trim_prefix-append session_v1 a)
      (unfold has_prefix in session_part key h)
parse-ref_text (artifact sha) h =
    rw (has_prefix-append artifact_v1 sha.value, trim_prefix-append artifact_v1 sha.value)
      (unfold has_prefix parse_artifact in ground arith)

-- A reference whose parts came from their constructors is formatted to a text, without a panic, and
-- `ParseRef` takes that text back to the same reference.
pub parse-format_ref :
    (r : Ref) → IsMade r → (t : Bytes) × (format_ref r ≡ some t) × (parse_ref t ≡ ok r)
unfolding format_ref
parse-format_ref r h = (ref_text r, rw (IsMade-is_valid r h), parse-ref_text r h)

lift-eq-ok : {A : Type 0} (m : Result IdentityError A) {a : A} → lift m ≡ ok a → m ≡ ok a
unfolding lift
lift-eq-ok (ok b) h = cc
lift-eq-ok (err e) h = cc

unb64-IsText : (s t : Bytes) → unb64 s ≡ ok t → IsText t
unfolding unb64
unb64-IsText s t h = decode-IsText s t (ground arith)

ok_inj : {a b : Ref} → ◌≡◌ {A = Result RefError Ref} (ok a) (ok b) → a ≡ b
ok_inj h = cc

key_made :
    (s : Bytes) (k : SessionKey) → parse_session_key s ≡ ok k → parse_session_key k.value ≡ ok k
key_made s k h = subst (λ u. parse_session_key u ≡ ok k) (sym ((parse_session_key_iff s k).0 h).0) h

entry_made : (s : Bytes) (e : EntryId) → new_entry_id s ≡ ok e → new_entry_id e.value ≡ ok e
entry_made s e h = subst (λ u. new_entry_id u ≡ ok e) (sym (new_entry_id_valid s e h).0) h

message-IsMade : (ps : List Bytes) (r : Ref) → parse_message ps ≡ ok r → IsMade r
unfolding parse_message
message-IsMade (a ∷ b ∷ []) r h =
    let (s, hs, h1) = >>=-eq-ok (unb64 a) _ h in
    let (t, ht, h2) = >>=-eq-ok (unb64 b) _ h1 in
    let (key, hk, h3) = >>=-eq-ok (lift (parse_session_key s)) _ h2 in
    let (entry, he, h4) = >>=-eq-ok (lift (new_entry_id t)) _ h3 in
    let g = lift-eq-ok (new_entry_id t) he in
    subst IsMade (ok_inj h4) (
      key_made s key (lift-eq-ok (parse_session_key s) hk),
      entry_made t entry g,
      subst IsText (sym (new_entry_id_valid t entry g).0) (unb64-IsText b t ht),
    )
message-IsMade _ r h = cc

session-IsMade : (s : Bytes) (r : Ref) → parse_session s ≡ ok r → IsMade r
unfolding parse_session
session-IsMade s r h =
    let (t, ht, h1) = >>=-eq-ok (unb64 s) _ h in
    let (key, hk, h2) = >>=-eq-ok (lift (parse_session_key t)) _ h1 in
    subst IsMade (ok_inj h2) (key_made t key (lift-eq-ok (parse_session_key t) hk))

artifact-IsMade : (s : Bytes) (r : Ref) → parse_artifact s ≡ ok r → IsMade r
unfolding parse_artifact
artifact-IsMade s r h =
    let (sha, hs, h1) = >>=-eq-ok (lift (parse_sha256_hex s)) _ h in
    let g = lift-eq-ok (parse_sha256_hex s) hs in
    subst IsMade (ok_inj h1)
      (subst (λ u. parse_sha256_hex u ≡ ok sha) (sym ((parse_sha256_hex_iff s sha).0 g).0) g)

parse_ref-IsMade : (s : Bytes) (r : Ref) → parse_ref s ≡ ok r → IsMade r
unfolding parse_ref
parse_ref-IsMade s r h = elim (Bool-cases (has_prefix s msg_v1)) [
  | inl e ↦ message-IsMade (split (trim_prefix s msg_v1) b':') r (rw e at h)
  | inr e ↦ elim (Bool-cases (has_prefix s session_v1)) [
    | inl e' ↦ session-IsMade (trim_prefix s session_v1) r (rw (e, e') at h)
    | inr e' ↦ elim (Bool-cases (has_prefix s artifact_v1)) [
      | inl e'' ↦ artifact-IsMade (trim_prefix s artifact_v1) r (rw (e, e', e'') at h)
      | inr e'' ↦ cc (rw (e, e', e'') at h)
    ]
  ]
]

-- Whatever text `ParseRef` accepts, the reference that it returns is valid, and it is formatted
-- without a panic to a text that parses to the same reference.
pub parse_ref_sound :
    (s : Bytes) (r : Ref)
    → parse_ref s ≡ ok r
    → (is_valid r ≡ true) × (t : Bytes) × (format_ref r ≡ some t) × (parse_ref t ≡ ok r)
parse_ref_sound s r h =
    let m = parse_ref-IsMade s r h in
    let (t, f, p) = parse-format_ref r m in (IsMade-is_valid r m, t, f, p)
