-- ===== src/Examples/Blobs.antt =====
-- Stored blobs and object names at concrete contents and machines.
use aha.Encoding.Hex
use aha.Model.Identity.{is_lower_hex}
use aha.Model.Identity.Valid
use aha.Prelude.{some, Result, [], ◌↔◌, ◌∷◌, true, ◌≡◌, ◌≢◌, refl, ok, arith}
use aha.Text.{Bytes, codes, text_eq}
use aha.Cas.{CasError, is_valid_key, hash_of, put_file, read_verified}
use aha.Cas.RoundTrip.{read-put_file}
use aha.Cas.Reader.{Decoder, read_stream}
use aha.Cas.Reader.Refines.{read_stream-read_verified}
use aha.Depot.Keys.{safe_catalog_component, manifest_object_key, latest_pointer_key}
use aha.Depot.Keys.Component.{IsSafe, safe_catalog_component-IsSafe}
use aha.Depot.Keys.Namespaces.{namespaces_apart}
use aha.Examples.Digest.{weak_digest, weak_digest-IsDigest, frame}

-- 17 bytes, so the digest begins with 0x11.
abbrev content : Bytes
content = codes "{\"role\":\"user\"}\n\n"

abbrev blob_key : Bytes
blob_key = codes "1100000000000000000000000000000000000000000000000000000000000000"

content_stored : put_file weak_digest frame blob_key content ≡ ok (40 ∷ content)
unfolding put_file is_valid_key hash_of text_eq Valid.sha256_hex is_lower_hex Hex.encode
content_stored = refl

content_read : read_verified weak_digest frame blob_key (40 ∷ content) ≡ ok content
content_read =
    read-put_file weak_digest frame blob_key content (40 ∷ content) (omega arith) content_stored

read-put_file_example : read_verified weak_digest frame blob_key (40 ∷ content) ≡ ok content
read-put_file_example =
    read-put_file weak_digest frame blob_key content (40 ∷ content) (omega arith) content_stored

-- The content in two pieces.
abbrev pieces : Decoder
pieces = record { pieces = codes "{\"role\"" ∷ []; last = codes ":\"user\"}\n\n"; is_whole = true }

read_stream-read_verified_example :
    (result : Result CasError Bytes) × (read_stream weak_digest frame blob_key pieces ≡ some result)
    × ((c : Bytes)
        → (result ≡ ok c) ↔ (read_verified weak_digest frame blob_key (40 ∷ content) ≡ ok c))
read_stream-read_verified_example =
    read_stream-read_verified weak_digest frame blob_key (40 ∷ content) pieces refl

-- A hostile machine identity.
safe_catalog_component-IsSafe_example : IsSafe (safe_catalog_component weak_digest (codes "../.."))
safe_catalog_component-IsSafe_example =
    safe_catalog_component-IsSafe weak_digest weak_digest-IsDigest (codes "../..")

namespaces_apart_example :
    (manifest_object_key weak_digest (codes "Work Mac") blob_key
        ≡ manifest_object_key weak_digest (codes "pi4") (codes "latest")
      → (safe_catalog_component weak_digest (codes "Work Mac")
          ≡ safe_catalog_component weak_digest (codes "pi4"))
        × (blob_key ≡ codes "latest"))
    × (latest_pointer_key weak_digest (codes "Work Mac")
          ≡ latest_pointer_key weak_digest (codes "pi4")
        → safe_catalog_component weak_digest (codes "Work Mac")
          ≡ safe_catalog_component weak_digest (codes "pi4"))
    × (manifest_object_key weak_digest (codes "Work Mac") blob_key
        ≢ latest_pointer_key weak_digest (codes "pi4"))
namespaces_apart_example =
    namespaces_apart weak_digest weak_digest-IsDigest (codes "Work Mac") (codes "pi4") blob_key
      (codes "latest")
