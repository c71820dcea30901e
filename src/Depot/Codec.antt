-- ===== src/Depot/Codec.antt =====
-- The pointers and the index of machines of internal/depot/keys_v2.go, and the code outside the
-- repository that an Archive rests on.
pub mod RoundTrip
use aha.Prelude.{
  Bool, true, false, not, List, [], ◌∷◌, ◌++◌, ◌≡◌, Option, none, some, Result, ok, err, ◌>>=◌,
  ◌>>◌, fail_if, All, ◌<◌, if◌then◌else◌,
}
use aha.Text.{Bytes, codes, text_eq, contains}
use aha.Text.Space.{is_blank}
use aha.Text.Order.{sort_texts}
use aha.Encoding.Json.{Json, newline}
use aha.Cas.{Zstd, is_valid_key}
use aha.Model.Identity.Keys.{IsDigest}
use aha.Model.Snapshot.Codec.{ManifestSha256, ManifestJson}

pub record LatestPointer : Type 0 where
  pub schema : Bytes
  pub manifest_sha256 : Bytes

pub record MachinesIndex : Type 0 where
  pub schema : Bytes
  pub machines : List Bytes

abbrev pub IsAscii : Bytes → Type 0
IsAscii = All (λ b. b < 128)

-- SHA-256, zstd and encoding/json. ASCII is valid UTF-8, so the encoder writes it unchanged.
pub record Externals : Type 0 where
  pub sha256 : Bytes → Bytes
  pub digest : IsDigest sha256
  pub zstd : Zstd
  pub manifest_json : ManifestJson
  pub pointer_json : Json LatestPointer
  pub index_json : Json MachinesIndex
  pub pointer_keeps :
      (p : LatestPointer)
      → IsAscii p.schema
      → IsAscii p.manifest_sha256
      → pointer_json.keeps p ≡ true

abbrev pub latest_pointer_schema : Bytes
latest_pointer_schema = codes "aha-depot-latest/v2"

abbrev pub machines_index_schema : Bytes
machines_index_schema = codes "aha-depot-machines/v2"

pub data CodecError : Type 0 where
  invalid_sha malformed_pointer pointer_schema malformed_index index_schema : CodecError
  empty_machine_id : CodecError

-- `json.Unmarshal`: one document, and nothing behind it.
unfoldable pub unmarshal : {A : Type 0} → Json A → Bytes → Option A
unmarshal json b = elim (json.decode b) [
  | none ↦ none
  | some (a, more) ↦ if more then none else some a
]

unfoldable pub or_error : {A : Type 0} → Option A → CodecError → Result CodecError A
or_error none e = err e
or_error (some a) e = ok a

-- The loop of `EncodeMachinesIndex` and `DecodeMachinesIndex`; a text is kept at its first place. The
-- first argument is `seen`.
distinct : List Bytes → List Bytes → Result CodecError (List Bytes)
distinct seen [] = ok []
distinct seen (m ∷ ms) = do
  fail_if (is_blank m) empty_machine_id
  rest ← distinct (if contains seen m then seen else m ∷ seen) ms
  ok (if contains seen m then rest else m ∷ rest)

module _ (x : Externals) where
  unfoldable pub encode_latest_pointer : ManifestSha256 → Result CodecError Bytes
  encode_latest_pointer sha = do
    fail_if (not (is_valid_key sha.value)) invalid_sha
    ok (
        x.pointer_json.marshal
          (record { schema = latest_pointer_schema; manifest_sha256 = sha.value })
        ++ newline)

  unfoldable pub decode_latest_pointer : Bytes → Result CodecError ManifestSha256
  unfolding unmarshal or_error
  decode_latest_pointer b = do
    p ← or_error (unmarshal x.pointer_json b) malformed_pointer
    fail_if (not (text_eq p.schema latest_pointer_schema)) pointer_schema
    fail_if (not (is_valid_key p.manifest_sha256)) invalid_sha
    ok (record { value = p.manifest_sha256 })

  unfoldable pub encode_machines_index : List Bytes → Result CodecError Bytes
  unfolding distinct
  encode_machines_index machines = do
    out ← distinct [] machines
    ok (
        x.index_json.marshal (record { schema = machines_index_schema; machines = sort_texts out })
        ++ newline)

  unfoldable pub decode_machines_index : Bytes → Result CodecError (List Bytes)
  unfolding distinct unmarshal or_error
  decode_machines_index b = do
    idx ← or_error (unmarshal x.index_json b) malformed_index
    fail_if (not (text_eq idx.schema machines_index_schema)) index_schema
    out ← distinct [] idx.machines
    ok (sort_texts out)
