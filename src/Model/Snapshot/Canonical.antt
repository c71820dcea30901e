-- ===== src/Model/Snapshot/Canonical.antt =====
-- One logical manifest has one encoding: encoding and decoding of
-- internal/model/snapshot_manifest.go undo one another.
use aha.Model.Snapshot.Validate.Sound.{v2_no_features}
use aha.Prelude.{
  inr, inl, Bool-cases, false, some, arith, ◌∙◌, not, sym, fail_if-eq-ok, ap, >>-eq-ok, >>=-eq-ok,
  true, ◌≡◌, refl, ok,
}
use aha.Text.{text_eq_refl, Bytes, text_eq, text_eq_iff}
use aha.Text.Order.{sort_texts}
use aha.Text.Order.Laws.{sort_by_idem}
use aha.Model.Snapshot.Files.{SnapshotManifest}
use aha.Model.Snapshot.Validate.{validate_snapshot_manifest, schema_v2}
use aha.Model.Snapshot.Codec.{
  decode_document, ManifestSha256, ManifestJson, normalise, to_legacy, from_legacy, manifest_bytes,
  sha256_hex, encode_snapshot_manifest, decode_snapshot_manifest,
}

normalise_idem : (m : SnapshotManifest) → normalise (normalise m) ≡ normalise m
unfolding normalise sort_texts
normalise_idem m = cc (
  sort_by_idem (λ f. f.relative_path) m.files,
  sort_by_idem (λ s. s) m.required_features,
  sort_by_idem (λ s. s) m.optional_features,
)

legacy_same :
    (n : SnapshotManifest)
    → validate_snapshot_manifest n ≡ ok tt
    → text_eq n.schema schema_v2 ≡ true
    → from_legacy (to_legacy n) ≡ n
unfolding from_legacy to_legacy
legacy_same n hv e = let (r, o) = v2_no_features n hv e in cc (r, o)

module _ (sha256 : Bytes → Bytes) (json : ManifestJson) where
  pub encode_parts :
      (m : SnapshotManifest) (b : Bytes) (sha : ManifestSha256)
      → encode_snapshot_manifest sha256 json m ≡ ok (b, sha)
      → (validate_snapshot_manifest (normalise m) ≡ ok tt)
        × (b ≡ manifest_bytes sha256 json (normalise m))
        × (sha.value ≡ sha256_hex sha256 json b)
  unfolding encode_snapshot_manifest
  encode_parts m b sha h =
      let (hv, h1) = >>-eq-ok (validate_snapshot_manifest (normalise m)) _ h in
      let e : manifest_bytes sha256 json (normalise m) ≡ b = cc (h1) in
      let e' : sha256_hex sha256 json (manifest_bytes sha256 json (normalise m)) ≡ sha.value =
        ap ManifestSha256.value (cc (h1)) in
      (hv, sym e, sym e' ∙ ap (sha256_hex sha256 json) e)

  -- Bytes that `DecodeSnapshotManifest` accepts are the canonical encoding of the manifest that it
  -- returns, and the identity that it returns is their SHA-256 in hexadecimal.
  pub encode-decode_snapshot :
      (b : Bytes) (m : SnapshotManifest) (sha : ManifestSha256)
      → decode_snapshot_manifest sha256 json b ≡ ok (m, sha)
      → (encode_snapshot_manifest sha256 json m ≡ ok (b, sha))
        × (sha.value ≡ sha256_hex sha256 json b)
  unfolding decode_snapshot_manifest
  encode-decode_snapshot b m sha h =
      let (m', hd, h1) = >>=-eq-ok (decode_document sha256 json b) _ h in
      let (p, he, h2) = >>=-eq-ok (encode_snapshot_manifest sha256 json m') _ h1 in
      let (ht, h3) = fail_if-eq-ok (not (text_eq p.0 b)) _ _ h2 in
      let eb : p.0 ≡ b = (text_eq_iff p.0 b).0 (ground arith) in
      let g : encode_snapshot_manifest sha256 json m ≡ ok (b, sha) = cc (he, eb, h3) in
      (g, (encode_parts m b sha g).2)

  document_of :
      (b : Bytes) (n : SnapshotManifest)
      → json.current.decode b ≡ some (n, false)
      → decode_document sha256 json b ≡ ok n
  unfolding decode_document
  document_of b n h = rw (h, decode_document)

  decode-bytes :
      (n : SnapshotManifest)
      → validate_snapshot_manifest n ≡ ok tt
      → json.current.keeps n ≡ true
      → json.current.decode (manifest_bytes sha256 json n) ≡ some (n, false)
  unfolding manifest_bytes
  decode-bytes n hv k = elim (Bool-cases (text_eq n.schema schema_v2)) [
    | inl e ↦
        let same = legacy_same n hv e in
        rw e (
          json.decode-marshal_legacy (to_legacy n) (rw same k)
          ∙ ap (λ (x : SnapshotManifest). some (x, false)) same)
    | inr e ↦ rw e (json.current.decode-marshal n k)
  ]

  -- Decoding the encoding of a manifest gives the manifest with its files and features in order, and
  -- the identity that encoding gave, where every string is valid UTF-8.
  pub decode-encode_snapshot :
      (m : SnapshotManifest) (b : Bytes) (sha : ManifestSha256)
      → json.current.keeps (normalise m) ≡ true
      → encode_snapshot_manifest sha256 json m ≡ ok (b, sha)
      → decode_snapshot_manifest sha256 json b ≡ ok (normalise m, sha)
  unfolding decode_snapshot_manifest
  decode-encode_snapshot m b sha k h =
      let n = normalise m in
      let (hv, eb, es) = encode_parts m b sha h in
      let hd : decode_document sha256 json b ≡ ok n =
        document_of b n (ap json.current.decode eb ∙ decode-bytes n hv k) in
      let he : encode_snapshot_manifest sha256 json n ≡ ok (b, sha) =
        unfold encode_snapshot_manifest in rw (normalise_idem m) h in
      rw (hd, he, text_eq_refl b) refl
