-- ===== src/Depot/Codec/RoundTrip.antt =====
-- The latest pointer of internal/depot/keys_v2.go, written and read back.
use aha.Prelude.{true, false, ◌≡◌, ◌++◌, [], ◌∷◌, some, ok, arith, refl, >>=-eq-ok}
use aha.Text.{Bytes, text_eq_refl}
use aha.Encoding.Json.{newline}
use aha.Encoding.Hex.Laws.{IsLowerHex}
use aha.Cas.{is_valid_key}
use aha.Model.Identity.Valid
use aha.Model.Identity.Parse.{is_lower_hex_iff}
use aha.Model.Snapshot.Codec.{ManifestSha256}
use aha.Depot.Codec.{
  LatestPointer, Externals, IsAscii, latest_pointer_schema, unmarshal, or_error, malformed_pointer,
  encode_latest_pointer, decode_latest_pointer,
}

lower-IsAscii : (s : Bytes) → IsLowerHex s → IsAscii s
lower-IsAscii [] h = tt
lower-IsAscii (c ∷ s) (p, h) = (ground arith, lower-IsAscii s h)

key-IsAscii : (k : Bytes) → is_valid_key k ≡ true → IsAscii k
unfolding is_valid_key Valid.sha256_hex
key-IsAscii k h = lower-IsAscii k ((is_lower_hex_iff k).0 (ground arith))

module _ (x : Externals) where
  decode_of_document :
      (b : Bytes) (sha : ManifestSha256)
      → is_valid_key sha.value ≡ true
      → x.pointer_json.decode b
        ≡ some (record { schema = latest_pointer_schema; manifest_sha256 = sha.value }, false)
      → decode_latest_pointer x b ≡ ok sha
  unfolding decode_latest_pointer
  decode_of_document b sha v h =
      let u : unmarshal x.pointer_json b
          ≡ some (record { schema = latest_pointer_schema; manifest_sha256 = sha.value }) =
        rw (h, unmarshal) refl in
      rw (u, or_error, text_eq_refl latest_pointer_schema, v) refl

  -- Every identity of a manifest, 64 lower-case hexadecimal digits, can be written as a latest
  -- pointer, and that pointer is read back as the identity.
  pub decode-encode_latest_pointer :
      (sha : ManifestSha256)
      → is_valid_key sha.value ≡ true
      → (b : Bytes) × (encode_latest_pointer x sha ≡ ok b) × (decode_latest_pointer x b ≡ ok sha)
  unfolding encode_latest_pointer
  decode-encode_latest_pointer sha v =
      let p : LatestPointer = record {
        schema = latest_pointer_schema;
        manifest_sha256 = sha.value;
      } in
      (
        x.pointer_json.marshal p ++ newline,
        rw v refl,
        decode_of_document _ sha v (
            x.pointer_json.decode-marshal p
              (x.pointer_keeps p (omega arith) (key-IsAscii sha.value v))),
      )

  -- What the decoder accepts names a valid identity.
  pub decode_latest_pointer_valid :
      (b : Bytes) (sha : ManifestSha256)
      → decode_latest_pointer x b ≡ ok sha
      → is_valid_key sha.value ≡ true
  unfolding decode_latest_pointer
  decode_latest_pointer_valid b sha h =
      let (p, hp, h1) = >>=-eq-ok (or_error (unmarshal x.pointer_json b) malformed_pointer) _ h in
      ground arith
