-- ===== src/Examples/Ref.antt =====
-- References at concrete identities, and texts that several spellings decode to.
use aha.Text.{text_eq}
use aha.Model.Identity.{to_lower_ascii}
use aha.Encoding.Hex
use aha.Text.{trim_prefix}
use aha.Model.Identity.{parse_sha256_hex}
use aha.Text.{has_prefix}
use aha.Text.{contains_byte}
use aha.Text.{contains_any}
use aha.Text.Space.{is_blank}
use aha.Prelude.{true, ◌≡◌, refl, ok, some, arith}
use aha.Text.{Bytes, codes}
use aha.Model.Identity.{EntryId, parse_session_key, new_entry_id}
use aha.Model.Ref.{Ref, message, is_valid, format_ref, parse_ref}
use aha.Model.Ref.RoundTrip.{parse-format_ref, parse_ref_sound}
use aha.Examples.Identity.{a_key}

abbrev an_entry : EntryId
an_entry = record { value = codes "e7" }

abbrev a_message : Ref
a_message = message a_key an_entry

a_key_made : parse_session_key a_key.value ≡ ok a_key
unfolding parse_session_key is_blank contains_any contains_byte has_prefix parse_sha256_hex
    trim_prefix Hex.decode to_lower_ascii
a_key_made = refl

an_entry_made : new_entry_id an_entry.value ≡ ok an_entry
unfolding new_entry_id is_blank contains_any contains_byte
an_entry_made = refl

parse-format_ref_example :
    (t : Bytes) × (format_ref a_message ≡ some t) × (parse_ref t ≡ ok a_message)
parse-format_ref_example = parse-format_ref a_message (a_key_made, an_entry_made, omega arith)

abbrev artifact_text : Bytes
artifact_text = codes "artifact:v1:1100000000000000000000000000000000000000000000000000000000000000"

abbrev an_artifact : Ref
an_artifact =
    Ref.artifact
      (record { value = codes "1100000000000000000000000000000000000000000000000000000000000000" })

artifact_accepted : parse_ref artifact_text ≡ ok an_artifact
unfolding parse_ref has_prefix parse_sha256_hex trim_prefix Hex.decode text_eq to_lower_ascii
artifact_accepted = refl

parse_ref_sound_example :
    (is_valid an_artifact ≡ true)
    × (t : Bytes) × (format_ref an_artifact ≡ some t)
    × (parse_ref t ≡ ok an_artifact)
parse_ref_sound_example = parse_ref_sound artifact_text an_artifact artifact_accepted
