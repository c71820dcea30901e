-- ===== src/Model/Identity.antt =====
-- internal/model/identity.go: validated identities. Each Go struct with a private `value` is a
-- record; `fmt.Errorf` is a constructor of `IdentityError`.
pub mod Valid
pub mod Parse
pub mod Keys
use aha.Prelude.{
  ℕ, ◌+◌, Bool, true, false, not, ◌&&◌, ◌||◌, List, [], ◌∷◌, ◌++◌, ◌==◌, ltb, if◌then◌else◌, length,
  map, drop, Option, none, some, Result, ok, err, ◌>>=◌, ◌>>◌, fail_if,
}
use aha.Text.{Bytes, codes, text_eq, has_prefix, trim_prefix, contains_any}
use aha.Text.Space.{is_blank}
use aha.Encoding.Hex
use aha.Encoding.Hex.{is_lower_hex_digit}
use aha.Encoding.Binary.{put_uint64}

pub record SourceName : Type 0 where
  pub value : Bytes

pub record MachineId : Type 0 where
  pub value : Bytes

pub record SourceSessionId : Type 0 where
  pub value : Bytes

pub record SessionKey : Type 0 where
  pub value : Bytes

pub record EntryId : Type 0 where
  pub value : Bytes

pub record Sha256Hex : Type 0 where
  pub value : Bytes

pub data IdentityError : Type 0 where
  source_name_required machine_id_required source_session_id_required : IdentityError
  invalid_entry_id invalid_session_key : IdentityError
  wrong_sha256_length invalid_sha256 sha256_not_lowercase : IdentityError

unfoldable pub new_source_name : Bytes → Result IdentityError SourceName
new_source_name s = if is_blank s then err source_name_required else ok (record { value = s })

unfoldable pub new_machine_id : Bytes → Result IdentityError MachineId
new_machine_id s = if is_blank s then err machine_id_required else ok (record { value = s })

unfoldable pub new_source_session_id : Bytes → Result IdentityError SourceSessionId
new_source_session_id s =
    if is_blank s then err source_session_id_required else ok (record { value = s })

-- "\x00\n\r"
abbrev pub line_breaks : Bytes
line_breaks = 0 ∷ 10 ∷ 13 ∷ []

unfoldable pub new_entry_id : Bytes → Result IdentityError EntryId
new_entry_id s =
    if is_blank s || contains_any s line_breaks
    then err invalid_entry_id
    else ok (record { value = s })

-- `strings.ToLower` of a text of hexadecimal digits, which is ASCII
lower_ascii : ℕ → ℕ
lower_ascii c = if ltb 64 c && ltb c 91 then c + 32 else c

unfoldable pub to_lower_ascii : Bytes → Bytes
unfolding lower_ascii
to_lower_ascii s = map lower_ascii s

unfoldable pub parse_sha256_hex : Bytes → Result IdentityError Sha256Hex
parse_sha256_hex s = if not (length s == 64) then err wrong_sha256_length else elim (Hex.decode s) [
  | none ↦ err invalid_sha256
  | some _ ↦
      if not (text_eq (to_lower_ascii s) s)
      then err sha256_not_lowercase
      else ok (record { value = s })
]

abbrev pub sk1 : Bytes
sk1 = codes "sk1_"

-- The digest's own error is wrapped in `invalid session key`.
abbrev session_key_of : Bytes → Result IdentityError Sha256Hex → Result IdentityError SessionKey
session_key_of s (ok _) = ok (record { value = s })
session_key_of s (err _) = err invalid_session_key

unfoldable pub parse_session_key : Bytes → Result IdentityError SessionKey
parse_session_key s =
    if is_blank s || contains_any s line_breaks || not (has_prefix s sk1)
    then err invalid_session_key
    else session_key_of s (parse_sha256_hex (trim_prefix s sk1))

unfoldable pub is_lower_hex : Bytes → Bool
is_lower_hex [] = true
is_lower_hex (c ∷ s) = is_lower_hex_digit c && is_lower_hex s

-- What the hash is given for one part of a session key: its length, then its bytes.
unfoldable pub length_prefixed : Bytes → Bytes
length_prefixed s = put_uint64 (length s) ++ s

-- The three writes to the hash.
unfoldable pub key_preimage : Bytes → Bytes → Bytes → Bytes
key_preimage source machine session =
    length_prefixed source ++ (length_prefixed machine ++ length_prefixed session)

-- crypto/sha256 is the parameter `sha256`.
module _ (sha256 : Bytes → Bytes) where
  unfoldable pub new_session_key : Bytes → Bytes → Bytes → Result IdentityError SessionKey
  new_session_key source machine session = do
    new_source_name source
    new_machine_id machine
    new_source_session_id session
    ok (record { value = sk1 ++ Hex.encode (sha256 (key_preimage source machine session)) })
