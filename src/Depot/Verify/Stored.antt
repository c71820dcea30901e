-- ===== src/Depot/Verify/Stored.antt =====
-- What the reads of an audit find, in terms of the stored objects: a blob, a manifest, a pointer and the
-- index of machines.
use aha.Prelude.{
  Bool, true, false, not, List, [], Option, none, some, Result, ok, err, length, ◌≤◌, ◌≡◌, ◌⊎◌, ◌↔◌,
  refl, sym, ap, ◌∙◌, arith, Option-cases, inl, inr, ok_inj, err_not_ok, none_not_some, some_inj,
}
use aha.Text.{Bytes, text_eq_iff}
use aha.Cas.{max_decompressed_blob_bytes, is_valid_key, hash_of, read_verified}
use aha.Model.Snapshot.Files.{SnapshotManifest}
use aha.Model.Snapshot.Codec.{ManifestSha256, PreparedSnapshot, decode_prepared_snapshot}
use aha.Depot.Keys.{
  safe_catalog_component, manifest_object_key, latest_pointer_key, blob_object_key,
  machines_index_key,
}
use aha.Depot.Store.{
  Objects, World, DepotError, ◌>>=◌, pure, raise, attempt, get, get_stream, primitive,
}
use aha.Depot.Store.Quiet.{quietly, get-present, get-absent, exists_present, exists_absent}
use aha.Depot.Store.Steps.{
  Returns, >>=-Returns, pure-Returns, raise_if-Returns, or_raise-Returns, raise_if_passes,
  or_raise_passes, bind_known,
}
use aha.Depot.Store.Reads.{value, pure-Reads, open_blob-Reads, manifest-Reads}
use aha.Depot.Codec.{CodecError, Externals, decode_latest_pointer, decode_machines_index}
use aha.Depot.Machine.{or_raise, machines, latest, prepared_manifest, manifest}
use aha.Depot.Init.{open_blob, has_blob}

module _ (x : Externals) (o : Objects) where
  -- A blob is stored; in deep mode it decompresses to content within the budget that hashes to its key.
  abbrev pub BlobStored : Bool → Bytes → Type 0
  BlobStored false key = (stored : Bytes) × (o (blob_object_key key) ≡ some stored)
  BlobStored true key =
      (stored : Bytes) × (content : Bytes) × (o (blob_object_key key) ≡ some stored)
      × (is_valid_key key ≡ true)
      × (x.zstd.decompress stored ≡ some content)
      × (hash_of x.sha256 x.zstd content ≡ key)
      × (length content ≤ max_decompressed_blob_bytes)

  -- The bytes of a manifest are there, decode to it, hash to its identity, and are of the machine.
  abbrev pub ManifestStored : Bytes → ManifestSha256 → SnapshotManifest → Type 0
  ManifestStored machine sha m =
      (b : Bytes) × (prepared : PreparedSnapshot) × (o
          (manifest_object_key x.sha256 machine sha.value)
        ≡ some b)
      × (is_valid_key sha.value ≡ true)
      × (decode_prepared_snapshot x.sha256 x.manifest_json b ≡ ok prepared)
      × (prepared.sha.value ≡ sha.value)
      × (safe_catalog_component x.sha256 prepared.manifest.machine_id
          ≡ safe_catalog_component x.sha256 machine)
      × (prepared.manifest ≡ m)

  abbrev pub PointerStored : Bytes → ManifestSha256 → Type 0
  PointerStored machine sha =
      (b : Bytes) × (o (latest_pointer_key x.sha256 machine) ≡ some b)
      × (decode_latest_pointer x b ≡ ok sha)

  -- The index lists the machines; without an index there is none.
  abbrev pub IndexStored : List Bytes → Type 0
  IndexStored ms =
      ((o machines_index_key ≡ none) × (ms ≡ []))
      ⊎ ((b : Bytes) × (o machines_index_key ≡ some b) × (decode_machines_index x b ≡ ok ms))

  got :
      (key b etag : Bytes) {v : World}
      → Returns (get x.sha256 key) (quietly o) (b, etag) v
      → o key ≡ some b
  got key b etag h = elim (Option-cases (o key)) [
    | inl e ↦
        absurd (err_not_ok (sym (ap (λ p. p.0) (get-absent x.sha256 o key e)) ∙ ap (λ p. p.0) h))
    | inr (c, e) ↦
        e
        ∙ ap (λ (p : Bytes × Bytes). some p.0)
            (ok_inj (sym (ap (λ p. p.0) (get-present x.sha256 o key c e)) ∙ ap (λ p. p.0) h))
  ]

  stream-present : (key b : Bytes) → o key ≡ some b → get_stream key (quietly o) ≡ (ok b, quietly o)
  unfolding get_stream primitive
  stream-present key b e = rw e refl

  stream-absent :
      (key : Bytes)
      → o key ≡ none
      → get_stream key (quietly o) ≡ (err DepotError.object_not_exist, quietly o)
  unfolding get_stream primitive
  stream-absent key e = rw e refl

  streamed : (key b : Bytes) {v : World} → Returns (get_stream key) (quietly o) b v → o key ≡ some b
  streamed key b h = elim (Option-cases (o key)) [
    | inl e ↦ absurd (err_not_ok (sym (ap (λ p. p.0) (stream-absent key e)) ∙ ap (λ p. p.0) h))
    | inr (c, e) ↦
        e ∙ ap some (ok_inj (sym (ap (λ p. p.0) (stream-present key c e)) ∙ ap (λ p. p.0) h))
  ]

  or_raise-ok :
      {E A : Type 0} (r : Result E A) (e : DepotError) (w : World) {a : A} {v : World}
      → Returns (or_raise r e) w a v
      → r ≡ ok a
  unfolding pure raise
  or_raise-ok (ok a) e w h = ap ok (ok_inj (ap (λ p. p.0) h))
  or_raise-ok (err c) e w h = absurd (err_not_ok (ap (λ p. p.0) h))

  or_raise-Ok :
      {E A : Type 0} (r : Result E A) (e : DepotError) (w : World) {a : A}
      → r ≡ ok a
      → Returns (or_raise r e) w a w
  unfolding pure
  or_raise-Ok r e w k = ap (λ q. or_raise q e w) k

  verified_parts :
      (key stored content : Bytes)
      → read_verified x.sha256 x.zstd key stored ≡ ok content
      → (is_valid_key key ≡ true)
        × (x.zstd.decompress stored ≡ some content)
        × (hash_of x.sha256 x.zstd content ≡ key)
        × (length content ≤ max_decompressed_blob_bytes)
  unfolding read_verified
  verified_parts key stored content h =
      ground (arith, text_eq_iff (hash_of x.sha256 x.zstd content) key)

  parts_verified :
      (key stored content : Bytes)
      → (is_valid_key key ≡ true)
        × (x.zstd.decompress stored ≡ some content)
        × (hash_of x.sha256 x.zstd content ≡ key)
        × (length content ≤ max_decompressed_blob_bytes)
      → read_verified x.sha256 x.zstd key stored ≡ ok content
  unfolding read_verified
  parts_verified key stored content (v, d, h, f) =
      ground (arith, text_eq_iff (hash_of x.sha256 x.zstd content) key)

  pub open_blob-BlobStored :
      (key : Bytes)
      → ((content : Bytes) × (value (open_blob x key) o ≡ ok content)) ↔ BlobStored true key
  unfolding open_blob
  open_blob-BlobStored key = (
    λ (content, h).
        let (stored, u, h1, h2) =
          >>=-Returns _ _ (quietly o) (open_blob-Reads x key o ∙ ap (λ r. (r, quietly o)) h) in
        let (v, d, g, fits) = verified_parts key stored content (or_raise-ok _ _ u h2) in
        (stored, content, streamed (blob_object_key key) stored h1, v, d, g, fits),
    λ (stored, content, e, v, d, g, fits). (
      content,
      ap (λ p. p.0)
          (bind_known _ _ (quietly o) (stream-present (blob_object_key key) stored e)
            ∙ or_raise-Ok _ _ (quietly o) (parts_verified key stored content (v, d, g, fits))),
    ),
  )

  pub has_blob-BlobStored :
      (key : Bytes) → (value (has_blob x key) o ≡ ok true) ↔ BlobStored false key
  unfolding has_blob
  has_blob-BlobStored key = (
    λ h. elim (Option-cases (o (blob_object_key key))) [
      | inr p ↦ p
      | inl e ↦
          let c : ◌≡◌ {A = Result DepotError Bool} (ok false) (ok true) =
            sym (ap (λ p. p.0) (exists_absent (blob_object_key key) o e)) ∙ h in
          absurd (cc (c))
    ],
    λ (stored, e). ap (λ p. p.0) (exists_present (blob_object_key key) stored o e),
  )

  pub manifest-ManifestStored :
      (machine : Bytes) (sha : ManifestSha256) (m : SnapshotManifest)
      → (value (manifest x machine sha) o ≡ ok m) ↔ ManifestStored machine sha m
  unfolding manifest prepared_manifest pure
  manifest-ManifestStored machine sha m = (
    λ h.
        let (p, u, h1, h2) =
          >>=-Returns _ _ (quietly o)
            (manifest-Reads x machine sha o ∙ ap (λ r. (r, quietly o)) h) in
        let (made, _) = pure-Returns _ u h2 in
        let (able, k1) = raise_if-Returns _ _ _ (quietly o) h1 in
        let ((b, etag), w, g, k2) = >>=-Returns _ _ (quietly o) k1 in
        let (prepared, dec, k3) = or_raise-Returns _ _ _ w k2 in
        let (same, k4) = raise_if-Returns _ _ _ w k3 in
        let (own, k5) = raise_if-Returns _ _ _ w k4 in
        let (e, _) = pure-Returns prepared w k5 in
        (
          b,
          prepared,
          got (manifest_object_key x.sha256 machine sha.value) b etag g,
          passed _ able,
          dec,
          (text_eq_iff _ _).0 (passed _ same),
          (text_eq_iff _ _).0 (passed _ own),
          ap PreparedSnapshot.manifest e ∙ made,
        ),
    λ (b, prepared, e, able, dec, same, own, made).
        ap (λ p. p.0)
          (bind_known _ _ (quietly o) (
              raise_if_passes _ _ _ (quietly o) (ap not able)
              ∙ bind_known _ _ (quietly o)
                  (get-present x.sha256 o (manifest_object_key x.sha256 machine sha.value) b e)
              ∙ or_raise_passes _ _ _ (quietly o) dec
              ∙ raise_if_passes _ _ _ (quietly o) (ap not ((text_eq_iff _ _).1 same))
              ∙ raise_if_passes _ _ _ (quietly o) (ap not ((text_eq_iff _ _).1 own)))
            ∙ done prepared made),
  )
    where
      passed : (b : Bool) → not b ≡ false → b ≡ true
      passed b k = ground arith

      done :
          (prepared : PreparedSnapshot)
          → prepared.manifest ≡ m
          → pure prepared.manifest (quietly o) ≡ (ok m, quietly o)
      done prepared e = ap (λ n. pure n (quietly o)) e ∙ pure-Reads m o

  pub latest-PointerStored :
      (machine : Bytes) (sha : ManifestSha256)
      → (value (latest x machine) o ≡ ok (some sha)) ↔ PointerStored machine sha
  unfolding latest pure attempt ◌>>=◌ raise
  latest-PointerStored machine sha = (
    λ h. elim (Option-cases (o (latest_pointer_key x.sha256 machine))) [
      | inl e ↦ absurd (none_not_some (ok_inj (sym (ap (λ p. p.0) (absent e)) ∙ h)))
      | inr (b, e) ↦
          (b, e, decoded b (decode_latest_pointer x b) refl (sym (ap (λ p. p.0) (present b e)) ∙ h))
    ],
    λ (b, e, k). ap (λ p. p.0) (present b e) ∙ ap (λ r. after b r) k,
  )
    where
      after : Bytes → Result CodecError ManifestSha256 → Result DepotError (Option ManifestSha256)
      after b r = elim r [
        | err _ ↦ err (DepotError.corrupt_object (latest_pointer_key x.sha256 machine))
        | ok s ↦ ok (some s)
      ]

      absent :
          o (latest_pointer_key x.sha256 machine) ≡ none
          → latest x machine (quietly o) ≡ (ok none, quietly o)
      absent e = rw (get-absent x.sha256 o (latest_pointer_key x.sha256 machine) e) refl

      present :
          (b : Bytes)
          → o (latest_pointer_key x.sha256 machine) ≡ some b
          → latest x machine (quietly o) ≡ (after b (decode_latest_pointer x b), quietly o)
      present b e =
          rw (get-present x.sha256 o (latest_pointer_key x.sha256 machine) b e)
            (by (decode_latest_pointer x b))
        where
          by :
              (r : Result CodecError ManifestSha256)
              → (or_raise r (DepotError.corrupt_object (latest_pointer_key x.sha256 machine))
                    >>= λ s. pure (some s))
                  (quietly o)
                ≡ (after b r, quietly o)
          by (ok s) = refl
          by (err c) = refl

      decoded :
          (b : Bytes) (r : Result CodecError ManifestSha256)
          → decode_latest_pointer x b ≡ r
          → after b r ≡ ok (some sha)
          → decode_latest_pointer x b ≡ ok sha
      decoded b (ok s) e h = e ∙ ap ok (some_inj (ok_inj h))
      decoded b (err c) e h = absurd (err_not_ok h)

  pub machines-IndexStored : (ms : List Bytes) → IndexStored ms → value (machines x) o ≡ ok ms
  unfolding machines pure attempt ◌>>=◌
  machines-IndexStored ms (inl (e, k)) = ap (λ p. p.0) empty ∙ ap ok (sym k)
    where
      empty : machines x (quietly o) ≡ (ok [], quietly o)
      empty = rw (get-absent x.sha256 o machines_index_key e) refl
  machines-IndexStored ms (inr (b, e, k)) = ap (λ p. p.0) full
    where
      full : machines x (quietly o) ≡ (ok ms, quietly o)
      full = rw (get-present x.sha256 o machines_index_key b e, k) refl
