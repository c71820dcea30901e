-- ===== src/Cas/Reader.antt =====
-- `VerifyReader` and `verifyingReader` of internal/cas/cas.go: the reader that hashes a blob's content as
-- it streams by. The decoder is klauspost/compress's: what its reads return.
pub mod Refines
use aha.Prelude.{
  ℕ, zero, suc, ◌+◌, ◌==◌, Bool, true, false, not, ◌&&◌, List, [], ◌∷◌, ◌++◌, Option, none, some,
  Result, ok, err, ◌>>◌, fail_if, if◌then◌else◌, length, ltb,
}
use aha.Text.{Bytes, text_eq}
use aha.Cas.{
  Zstd, CasError, invalid_blob_key, wrong_content, corrupt_stream, over_budget,
  max_decompressed_blob_bytes, is_valid_key, hash_of,
}

-- How the reads of a decoder go: pieces without an error, and then a last one with io.EOF where the
-- stream is whole, and with an error where it is not.
pub record Decoder : Type 0 where
  pub pieces : List Bytes
  pub last : Bytes
  pub is_whole : Bool

pub data ReadEnd : Type 0 where
  eof : ReadEnd
  failed : CasError → ReadEnd

pub record VerifyingReader : Type 0 where
  pub key : Bytes
  pub decoder : Decoder
  pub hashed : Bytes  -- what was written to `h`
  pub n : ℕ
  pub verified : Bool

decoder_end : Decoder → Option ReadEnd
decoder_end d = some (if d.is_whole then eof else failed corrupt_stream)

-- What one read returns, and the decoder after it.
decoder_read : Decoder → List Bytes → (Bytes × Option ReadEnd) × Decoder
unfolding decoder_end
decoder_read d [] = ((d.last, decoder_end d), record d { pieces = []; last = [] })
decoder_read d (p ∷ ps) = ((p, none), record d { pieces = ps })

module _ (sha256 : Bytes → Bytes) (zstd : Zstd) where
  -- The test at the end of the stream.
  at_end : VerifyingReader → Option ReadEnd → Option ReadEnd × VerifyingReader
  at_end r none = (none, r)
  at_end r (some (failed e)) = (some (failed e), r)
  at_end r (some eof) =
      if text_eq (hash_of sha256 zstd r.hashed) r.key
      then (some eof, record r { verified = true })
      else (some (failed wrong_content), r)

  -- `verifyingReader.Read`
  read : VerifyingReader → (Bytes × Option ReadEnd) × VerifyingReader
  unfolding decoder_read at_end
  read r =
      let ((p, end), d) = decoder_read r.decoder r.decoder.pieces in
      let r' = record r { decoder = d; hashed = r.hashed ++ p; n = r.n + length p } in
      if not (length p == 0) && ltb max_decompressed_blob_bytes (r.n + length p)
      then ((p, some (failed over_budget)), r')
      else (let (e, r'') = at_end r' end in ((p, e), r''))

  verify_reader : Bytes → Decoder → Result CasError VerifyingReader
  verify_reader key d = do
    fail_if (not (is_valid_key key)) invalid_blob_key
    ok (record { key = key; decoder = d; hashed = []; n = 0; verified = false })

  -- A caller that reads until there is an error, as io.ReadAll and io.Copy do, in so many reads.
  read_all : ℕ → VerifyingReader → Bytes → Option (Result CasError Bytes)
  unfolding read
  read_all zero r got = none
  read_all (suc fuel) r got =
      let ((p, end), r') = read r in
      let rest = read_all fuel r' (got ++ p) in
      elim end [ none ↦ rest | some eof ↦ some (ok (got ++ p)) | some (failed e) ↦ some (err e) ]

  unfoldable pub read_stream : Bytes → Decoder → Option (Result CasError Bytes)
  unfolding verify_reader read_all
  read_stream key d = elim (verify_reader key d) [
    | err e ↦ some (err e)
    | ok r ↦ read_all (suc (length d.pieces)) r []
  ]
