-- ===== src/Examples/Snapshot.antt =====
-- The canonical encoding of one manifest, there and back.
use aha.Prelude.Int.{is_negative}
use aha.Text.Order.{sort_by}
use aha.Text.Order.{sort_texts}
use aha.Prelude.{◌≡◌, ok, refl}
use aha.Text.{Bytes, text_eq, contains, has_prefix, split, contains_byte, contains_text}
use aha.Text.Path.{is_abs, clean}
use aha.Text.Space.{is_blank}
use aha.Text.Order.{sort_texts, sort_by}
use aha.Model.Identity.{parse_sha256_hex, to_lower_ascii}
use aha.Encoding.Hex
use aha.Model.Snapshot.Validate.{validate_snapshot_manifest, validate_source_data_path}
use aha.Model.Snapshot.Codec.{
  ManifestSha256, normalise, manifest_bytes, sha256_hex, encode_snapshot_manifest,
  decode_snapshot_manifest,
}
use aha.Model.Snapshot.Canonical.{encode-decode_snapshot, decode-encode_snapshot}
use aha.Examples.Digest.{weak_digest}
use aha.Examples.Documents.{one_session, manifest_documents}

abbrev document : Bytes
document = manifest_bytes weak_digest manifest_documents one_session

abbrev identity : ManifestSha256
identity = record { value = sha256_hex weak_digest manifest_documents document }

one_session_encoded :
    encode_snapshot_manifest weak_digest manifest_documents one_session ≡ ok (document, identity)
unfolding encode_snapshot_manifest validate_snapshot_manifest text_eq normalise sort_texts sort_by
    is_blank contains validate_source_data_path is_abs has_prefix clean split contains_byte
    contains_text parse_sha256_hex to_lower_ascii Hex.decode is_negative
one_session_encoded = refl

document_decoded :
    decode_snapshot_manifest weak_digest manifest_documents document ≡ ok (one_session, identity)
unfolding normalise sort_texts sort_by
document_decoded =
    decode-encode_snapshot weak_digest manifest_documents one_session document identity refl
      one_session_encoded

encode-decode_snapshot_example :
    (encode_snapshot_manifest weak_digest manifest_documents one_session ≡ ok (document, identity))
    × (identity.value ≡ sha256_hex weak_digest manifest_documents document)
encode-decode_snapshot_example =
    encode-decode_snapshot weak_digest manifest_documents document one_session identity
      document_decoded

decode-encode_snapshot_example :
    decode_snapshot_manifest weak_digest manifest_documents document
    ≡ ok (normalise one_session, identity)
decode-encode_snapshot_example =
    decode-encode_snapshot weak_digest manifest_documents one_session document identity refl
      one_session_encoded
