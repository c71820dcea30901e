-- ===== src/Cas/Reader/Refines.antt =====
-- Reading a blob through the streaming reader comes to the check of the whole content, however the
-- decoder cuts it into pieces.
use aha.Prelude.{
  ℕ, suc, ◌+◌, ◌==◌, ◌≤◌, Bool, true, false, not, ◌&&◌, List, [], ◌∷◌, ◌++◌, append_assoc, Option,
  none, some, Result, ok, err, if◌then◌else◌, length, length-append, ltb, ◌≡◌, ◌≢◌, ◌↔◌, refl, sym,
  ap, subst, ◌∙◌, arith, Bool-cases, inl, inr, ok_inj, err_not_ok,
}
use aha.Text.{Bytes, text_eq, text_eq_iff}
use aha.Cas.{
  Zstd, CasError, invalid_blob_key, wrong_content, corrupt_stream, over_budget,
  max_decompressed_blob_bytes, is_valid_key, hash_of, read_verified, decompressed,
}
use aha.Cas.Reader.{
  Decoder, ReadEnd, eof, failed, VerifyingReader, decoder_read, decoder_end, at_end, read,
  verify_reader, read_all, read_stream,
}

abbrev pub joined : List Bytes → Bytes → Bytes
joined [] last = last
joined (p ∷ ps) last = p ++ joined ps last

-- The whole content that a decoder gives.
abbrev pub content_of : Decoder → Option Bytes
content_of d = if d.is_whole then some (joined d.pieces d.last) else none

-- The test of the budget after a read.
abbrev is_over : ℕ → Bytes → Bool
is_over n p = not (length p == 0) && ltb max_decompressed_blob_bytes (n + length p)

module _ (sha256 : Bytes → Bytes) (zstd : Zstd) where
  -- What the check of a whole content asks.
  Passes : Bytes → Bool → Bytes → Bytes → Type 0
  Passes key whole all c =
      (whole ≡ true)
      × (length all ≤ max_decompressed_blob_bytes)
      × (hash_of sha256 zstd all ≡ key)
      × (all ≡ c)

  -- A run of reads ends, and it ends well exactly where the content passes.
  Ends : Bytes → Bool → Bytes → Option (Result CasError Bytes) → Type 0
  Ends key whole all run =
      (result : Result CasError Bytes) × (run ≡ some result)
      × ((c : Bytes) → (result ≡ ok c) ↔ Passes key whole all c)

  err-Ends :
      (key : Bytes) (whole : Bool) (all : Bytes) (e : CasError)
      (run : Option (Result CasError Bytes))
      → run ≡ some (err e)
      → ((c : Bytes) → ¬ Passes key whole all c)
      → Ends key whole all run
  unfolding Ends
  err-Ends key whole all e run h n =
      (err e, h, λ c. (λ k. absurd (err_not_ok k), λ p. absurd (n c p)))

  over-Passes :
      (key : Bytes) (whole : Bool) (h p rest : Bytes) (n : ℕ) (c : Bytes)
      → n ≡ length h
      → is_over n p ≡ true
      → ¬ Passes key whole (h ++ (p ++ rest)) c
  unfolding Passes
  over-Passes key whole h p rest n c e o (_, fits, _, _) =
      ground (arith, length-append h (p ++ rest), length-append p rest)

  fits-next :
      (h p : Bytes) (n : ℕ)
      → n ≡ length h
      → length h ≤ max_decompressed_blob_bytes
      → is_over n p ≡ false
      → length (h ++ p) ≤ max_decompressed_blob_bytes
  fits-next h p n e f o = ground (arith, length-append h p)

  abbrev reader : Bytes → List Bytes → Bytes → Bool → Bytes → ℕ → Bool → VerifyingReader
  reader key ps last whole h n v = record {
    key = key;
    decoder = record { pieces = ps; last = last; is_whole = whole };
    hashed = h;
    n = n;
    verified = v;
  }

  -- What `read_all` does with the result of a read.
  abbrev follow :
      ℕ → Bytes → (Bytes × Option ReadEnd) × VerifyingReader → Option (Result CasError Bytes)
  follow fuel got q = elim q.0.1 [
    | none ↦ read_all sha256 zstd fuel q.1 (got ++ q.0.0)
    | some eof ↦ some (ok (got ++ q.0.0))
    | some (failed e) ↦ some (err e)
  ]

  abbrev chosen :
      Bool
      → (Bytes × Option ReadEnd) × VerifyingReader
      → Option ReadEnd × VerifyingReader
      → (Bytes × Option ReadEnd) × VerifyingReader
  chosen b over q = if b then over else ((over.0.0, q.0), q.1)

  chose :
      (b c : Bool) (over : (Bytes × Option ReadEnd) × VerifyingReader)
      (q : Option ReadEnd × VerifyingReader)
      → b ≡ c
      → chosen b over q ≡ chosen c over q
  chose b c over q e = ap (λ d. chosen d over q) e

  at_end-good :
      (r : VerifyingReader)
      → text_eq (hash_of sha256 zstd r.hashed) r.key ≡ true
      → at_end sha256 zstd r (some eof) ≡ (some eof, record r { verified = true })
  unfolding at_end
  at_end-good r t = rw t refl

  at_end-bad :
      (r : VerifyingReader)
      → text_eq (hash_of sha256 zstd r.hashed) r.key ≡ false
      → at_end sha256 zstd r (some eof) ≡ (some (failed wrong_content), r)
  unfolding at_end
  at_end-bad r t = rw t refl

  read-last :
      (key last h : Bytes) (n : ℕ) (whole v : Bool)
      → let r = reader key [] [] whole (h ++ last) (n + length last) v in
        read sha256 zstd (reader key [] last whole h n v)
        ≡ chosen
            (is_over n last)
            ((last, some (failed over_budget)), r)
            (at_end sha256 zstd r (some (if whole then eof else failed corrupt_stream)))
  unfolding read decoder_read decoder_end
  read-last key last h n whole v = refl

  last-Ends :
      (key h last : Bytes) (n : ℕ) (whole v : Bool)
      → n ≡ length h
      → length h ≤ max_decompressed_blob_bytes
      → Ends key whole (h ++ last) (read_all sha256 zstd 1 (reader key [] last whole h n v) h)
  unfolding read_all Ends Passes at_end
  last-Ends key h last n whole v e f = elim (Bool-cases (is_over n last)) [
    | inl o ↦
        err-Ends key whole (h ++ last) over_budget _
          (ap (follow 0 h) (read-last key last h n whole v ∙ chose _ true _ _ o))
          (λ c (_, fits, _, _). ground (arith, length-append h last))
    | inr o ↦ ended whole o
  ]
    where
      ended :
          (w : Bool)
          → is_over n last ≡ false
          → Ends key w (h ++ last) (read_all sha256 zstd 1 (reader key [] last w h n v) h)
      ended false o =
          err-Ends key false (h ++ last) corrupt_stream _
            (ap (follow 0 h) (read-last key last h n false v ∙ chose _ false _ _ o))
            (λ c (k, _, _, _). absurd (cc (k)))
      ended true o = elim (Bool-cases (text_eq (hash_of sha256 zstd (h ++ last)) key)) [
        | inl t ↦ (
          ok (h ++ last),
          ap (follow 0 h) (
              read-last key last h n true v
              ∙ chose _ false _ _ o
              ∙ ap (λ q. ((last, q.0), q.1))
                  (at_end-good (reader key [] [] true (h ++ last) (n + length last) v) t)),
          λ c. (
            λ k. (
              refl,
              fits-next h last n e f o,
              (text_eq_iff (hash_of sha256 zstd (h ++ last)) key).0 t,
              ok_inj k,
            ),
            λ (_, _, _, q). ap ok q,
          ),
        )
        | inr t ↦
            err-Ends key true (h ++ last) wrong_content _
              (ap (follow 0 h) (
                read-last key last h n true v
                ∙ chose _ false _ _ o
                ∙ ap (λ q. ((last, q.0), q.1))
                    (at_end-bad (reader key [] [] true (h ++ last) (n + length last) v) t)))
              (λ c (_, _, q, _).
                absurd (cc (t, (text_eq_iff (hash_of sha256 zstd (h ++ last)) key).1 q)))
      ]

  read-piece :
      (key p : Bytes) (ps : List Bytes) (last h : Bytes) (n : ℕ) (whole v : Bool)
      → let r = reader key ps last whole (h ++ p) (n + length p) v in
        read sha256 zstd (reader key (p ∷ ps) last whole h n v)
        ≡ chosen (is_over n p) ((p, some (failed over_budget)), r) (none, r)
  unfolding read decoder_read at_end
  read-piece key p ps last h n whole v = refl

  loop-Ends :
      (key : Bytes) (ps : List Bytes) (h last : Bytes) (n : ℕ) (whole v : Bool)
      → n ≡ length h
      → length h ≤ max_decompressed_blob_bytes
      → Ends key whole
          (h ++ joined ps last)
          (read_all sha256 zstd (suc (length ps)) (reader key ps last whole h n v) h)
  unfolding read_all
  loop-Ends key [] h last n whole v e f = last-Ends key h last n whole v e f
  loop-Ends key (p ∷ ps) h last n whole v e f = elim (Bool-cases (is_over n p)) [
    | inl o ↦
        err-Ends key whole (h ++ (p ++ joined ps last)) over_budget _
          (ap (follow (suc (length ps)) h)
            (read-piece key p ps last h n whole v ∙ chose _ true _ _ o))
          (λ c. over-Passes key whole h p (joined ps last) n c e o)
    | inr o ↦
        let later =
          loop-Ends key ps (h ++ p) last (n + length p) whole v
            (omega (arith, length-append h p, e)) (fits-next h p n e f o) in
        let run =
          ap (follow (suc (length ps)) h)
            (read-piece key p ps last h n whole v ∙ chose _ false _ _ o) in
        subst
          (λ all.
            Ends key whole all (
              read_all sha256 zstd (suc (suc (length ps))) (reader key (p ∷ ps) last whole h n v)
                h))
          (append_assoc h p (joined ps last))
          (subst (Ends key whole ((h ++ p) ++ joined ps last)) (sym run) later)
  ]

  whole-Passes :
      (key stored : Bytes) (d : Decoder)
      → is_valid_key key ≡ true
      → zstd.decompress stored ≡ content_of d
      → (c : Bytes)
      → Passes key d.is_whole (joined d.pieces d.last) c
        ↔ (read_verified sha256 zstd key stored ≡ ok c)
  unfolding read_verified decompressed Passes
  whole-Passes key stored d v e c = elim (Bool-cases d.is_whole) [
    | inl w ↦ (
      λ p. ground (
        arith,
        text_eq_iff (hash_of sha256 zstd (joined d.pieces d.last)) key,
        p.1,
        p.2,
        p.3,
        e,
        w,
        v,
      ),
      λ k.
          ground
            (arith, text_eq_iff (hash_of sha256 zstd (joined d.pieces d.last)) key, k, e, w, v),
    )
    | inr w ↦ (λ p. absurd (cc (p.0, w)), λ k. ground (arith, k, e, w, v))
  ]

  bad_key :
      (key stored c : Bytes)
      → is_valid_key key ≡ false
      → read_verified sha256 zstd key stored ≢ ok c
  unfolding read_verified
  bad_key key stored c v k = ground (arith, v, k)

  opened :
      (key : Bytes) (d : Decoder) (b : Bool)
      → is_valid_key key ≡ b
      → read_stream sha256 zstd key d ≡ (
          if b
          then read_all sha256 zstd
              (suc (length d.pieces))
              (reader key d.pieces d.last d.is_whole [] 0 false)
              []
          else some (err invalid_blob_key))
  unfolding read_stream verify_reader
  opened key d true v = rw (read_stream, verify_reader, v) refl
  opened key d false v = rw (read_stream, verify_reader, v) refl

  -- Where the reads of the decoder give what the stored bytes decompress to, or fail if they do not
  -- decompress: however they cut the content into pieces, reading through the reader of `VerifyReader` to its
  -- end, one read for each piece and one for the end, comes to an end, and returns a content
  -- exactly where the check of the whole content does: the key is 64 lower-case hexadecimal digits,
  -- the stream is whole, the content is at most 4 GiB long, and its SHA-256 is the key.
  pub read_stream-read_verified :
      (key stored : Bytes) (d : Decoder)
      → zstd.decompress stored ≡ content_of d
      → (result : Result CasError Bytes) × (read_stream sha256 zstd key d ≡ some result)
        × ((c : Bytes) → (result ≡ ok c) ↔ (read_verified sha256 zstd key stored ≡ ok c))
  unfolding Ends
  read_stream-read_verified key stored d e = elim (Bool-cases (is_valid_key key)) [
    | inl v ↦
        let (result, run, ends) =
          loop-Ends key d.pieces [] d.last 0 d.is_whole false refl (omega arith) in
        (
          result,
          opened key d true v ∙ run,
          λ c.
              let (p, q) = whole-Passes key stored d v e c in
              let (g, h) = ends c in (λ k. p (g k), λ k. h (q k)),
        )
    | inr v ↦ (
      err invalid_blob_key,
      opened key d false v,
      λ c. (λ k. absurd (err_not_ok k), λ k. absurd (bad_key key stored c v k)),
    )
  ]
