-- ===== src/Cas.antt =====
-- internal/cas/cas.go: content-addressed blobs. A blob's key is the SHA-256 of its uncompressed
-- content, checked when a blob is stored and when it is read. zstd is a parameter.
pub mod RoundTrip
pub mod Reader
use aha.Prelude.{
  ℕ, Bool, not, ◌≡◌, Option, none, some, Result, ok, err, ◌>>=◌, ◌>>◌, fail_if, length, ltb, ◌^◌,
  ◌*◌,
}
use aha.Text.{Bytes, text_eq}
use aha.Encoding.Hex
use aha.Model.Identity.{Sha256Hex}
use aha.Model.Identity.Valid

-- What the program relies on of klauspost/compress: a stream that the encoder wrote is read back.
pub record Zstd : Type 0 where
  pub compress : Bytes → Bytes
  pub decompress : Bytes → Option Bytes
  pub decompress-compress : (b : Bytes) → decompress (compress b) ≡ some b

pub data CasError : Type 0 where
  invalid_blob_key wrong_content corrupt_stream over_budget : CasError

-- 4 GiB
abbrev pub max_decompressed_blob_bytes : ℕ
max_decompressed_blob_bytes = 4 * 2 ^ 30

-- The method `Valid` of `BlobKey` and `ManifestSHA256`.
unfoldable pub is_valid_key : Bytes → Bool
is_valid_key k = Valid.sha256_hex (record { value = k })

module _ (sha256 : Bytes → Bytes) (zstd : Zstd) where
  unfoldable pub hash_of : Bytes → Bytes
  hash_of content = Hex.encode (sha256 content)

  -- `PutFile` on a key that is not stored yet: the bytes that it stores for a file's content.
  unfoldable pub put_file : Bytes → Bytes → Result CasError Bytes
  put_file key content = do
    fail_if (not (is_valid_key key)) invalid_blob_key
    fail_if (not (text_eq (hash_of content) key)) wrong_content
    ok (zstd.compress content)

  decompressed : Bytes → Result CasError Bytes
  decompressed stored = elim (zstd.decompress stored) [ none ↦ err corrupt_stream | some b ↦ ok b ]

  -- Reading a stored blob through `VerifyReader` to its end.
  unfoldable pub read_verified : Bytes → Bytes → Result CasError Bytes
  unfolding decompressed
  read_verified key stored = do
    fail_if (not (is_valid_key key)) invalid_blob_key
    content ← decompressed stored
    fail_if (ltb max_decompressed_blob_bytes (length content)) over_budget
    fail_if (not (text_eq (hash_of content) key)) wrong_content
    ok content
