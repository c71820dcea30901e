-- ===== src/Examples/Identity.antt =====
-- The theorems on identities at concrete identities.
use aha.Encoding.Binary.{put_uint64}
use aha.Encoding.Hex
use aha.Model.Identity.{new_source_session_id}
use aha.Model.Identity.{new_machine_id}
use aha.Model.Identity.{new_source_name}
use aha.Prelude.{◌≡◌, ◌≢◌, ◌⊎◌, refl, ok, arith}
use aha.Text.{Bytes, codes, text_eq}
use aha.Text.Space.{is_blank, trim_space}
use aha.Model.Identity.{length_prefixed}
use aha.Model.Identity.{SessionKey, Sha256Hex, key_preimage, new_session_key}
use aha.Model.Identity.Keys.{new_session_key-inj}
use aha.Examples.Digest.{weak_digest, weak_digest-IsDigest}

abbrev pub digest_text : Bytes
digest_text = codes "1100000000000000000000000000000000000000000000000000000000000000"

abbrev pub a_digest : Sha256Hex
a_digest = record { value = digest_text }

abbrev pub a_key : SessionKey
a_key = record {
  value = codes "sk1_2300000000000000000000000000000000000000000000000000000000000000";
}

key_of_example : new_session_key weak_digest (codes "pi") (codes "laptop") (codes "s-1") ≡ ok a_key
unfolding new_session_key is_blank text_eq trim_space length_prefixed key_preimage new_source_name
    new_machine_id new_source_session_id Hex.encode put_uint64
key_of_example = refl

-- The weak digest sees only a length, so two different sessions share a key: the collision case.
other_key_of_example :
    new_session_key weak_digest (codes "pi") (codes "laptop") (codes "s-2") ≡ ok a_key
unfolding new_session_key is_blank text_eq trim_space length_prefixed key_preimage new_source_name
    new_machine_id new_source_session_id Hex.encode put_uint64
other_key_of_example = refl

new_session_key-inj_example :
    let p = key_preimage (codes "pi") (codes "laptop") (codes "s-1") in
    let q = key_preimage (codes "pi") (codes "laptop") (codes "s-2") in
    ((codes "pi" ≡ codes "pi") × (codes "laptop" ≡ codes "laptop") × (codes "s-1" ≡ codes "s-2"))
    ⊎ ((p ≢ q) × (weak_digest p ≡ weak_digest q))
new_session_key-inj_example =
    new_session_key-inj weak_digest weak_digest-IsDigest (codes "pi") (codes "laptop") (codes "s-1")
      (codes "pi") (codes "laptop") (codes "s-2") a_key (omega arith, omega arith, omega arith)
      (omega arith, omega arith, omega arith) key_of_example other_key_of_example
