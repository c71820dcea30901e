-- ===== src/Cas/RoundTrip.antt =====
-- A stored blob reads back as the content that was stored.
use aha.Prelude.{arith, ◌≡◌, ok, ◌≤◌, length}
use aha.Text.{Bytes}
use aha.Cas.{Zstd, max_decompressed_blob_bytes, put_file, read_verified}

module _ (sha256 : Bytes → Bytes) (zstd : Zstd) where
  -- A blob that `PutFile` stored is read back by `VerifyReader` as the file's content, where that is
  -- at most 4 GiB.
  pub read-put_file :
      (key content stored : Bytes)
      → length content ≤ max_decompressed_blob_bytes
      → put_file sha256 zstd key content ≡ ok stored
      → read_verified sha256 zstd key stored ≡ ok content
  unfolding put_file read_verified
  read-put_file key content stored fits h = ground (arith, zstd.decompress-compress content)
