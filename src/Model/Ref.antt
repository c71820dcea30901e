-- ===== src/Model/Ref.antt =====
-- internal/model/ref.go: references to messages, sessions and artefacts, and their text form.
pub mod RoundTrip
use aha.Prelude.{
  Bool, true, false, not, ◌&&◌, List, [], ◌∷◌, ◌++◌, String, Option, none, some, if◌then◌else◌,
  Result, ok, err, ◌>>=◌,
}
use aha.Text.{Bytes, codes, has_prefix, trim_prefix, split}
use aha.Encoding.Base64
use aha.Model.Identity.{
  SessionKey, EntryId, Sha256Hex, IdentityError, parse_session_key, new_entry_id, parse_sha256_hex,
}
use aha.Model.Identity.Valid

pub data RefKind : Type 0 where
  message_kind session_kind artifact_kind : RefKind

pub data Ref : Type 0 where
  message : SessionKey → EntryId → Ref
  session : SessionKey → Ref
  artifact : Sha256Hex → Ref

unfoldable pub kind : Ref → RefKind
kind (message _ _) = message_kind
kind (session _) = session_kind
kind (artifact _) = artifact_kind

-- The methods `Valid` of the three variants.
unfoldable pub is_valid : Ref → Bool
is_valid (message key entry) = Valid.session_key key && Valid.entry_id entry
is_valid (session key) = Valid.session_key key
is_valid (artifact sha) = Valid.sha256_hex sha

pub data RefError : Type 0 where
  invalid_message_ref invalid_encoding : RefError
  identity : IdentityError → RefError
  unsupported : Bytes → RefError

abbrev pub msg_v1 : Bytes
msg_v1 = codes "msg:v1:"

abbrev pub session_v1 : Bytes
session_v1 = codes "session:v1:"

abbrev pub artifact_v1 : Bytes
artifact_v1 = codes "artifact:v1:"

ref_text : Ref → Bytes
ref_text (message key entry) =
    msg_v1 ++ (Base64.encode key.value ++ b':' ∷ Base64.encode entry.value)
ref_text (session key) = session_v1 ++ Base64.encode key.value
ref_text (artifact sha) = artifact_v1 ++ sha.value

-- `none` is the panic on an invalid reference.
unfoldable pub format_ref : Ref → Option Bytes
unfolding ref_text
format_ref r = if is_valid r then some (ref_text r) else none

unb64 : Bytes → Result RefError Bytes
unb64 s = elim (Base64.decode s) [ none ↦ err invalid_encoding | some t ↦ ok t ]

-- an identity's error, passed on
lift : {A : Type 0} → Result IdentityError A → Result RefError A
lift (ok a) = ok a
lift (err e) = err (identity e)

parse_message : List Bytes → Result RefError Ref
unfolding unb64 lift
parse_message (a ∷ b ∷ []) = do
  session_text ← unb64 a
  entry_text ← unb64 b
  key ← lift (parse_session_key session_text)
  entry ← lift (new_entry_id entry_text)
  ok (message key entry)
parse_message _ = err invalid_message_ref

parse_session : Bytes → Result RefError Ref
unfolding unb64 lift
parse_session s = do
  session_text ← unb64 s
  key ← lift (parse_session_key session_text)
  ok (session key)

parse_artifact : Bytes → Result RefError Ref
unfolding lift
parse_artifact s = do sha ← lift (parse_sha256_hex s); ok (artifact sha)

unfoldable pub parse_ref : Bytes → Result RefError Ref
unfolding parse_message parse_session parse_artifact
parse_ref s =
    if has_prefix s msg_v1
    then parse_message (split (trim_prefix s msg_v1) b':')
    else if has_prefix s session_v1
    then parse_session (trim_prefix s session_v1)
    else if has_prefix s artifact_v1
    then parse_artifact (trim_prefix s artifact_v1)
    else err (unsupported s)
