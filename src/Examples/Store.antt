-- ===== src/Examples/Store.antt =====
-- The object store at concrete worlds, with another process acting in between.
use aha.Depot.Publish.{is_valid_expectation}
use aha.Text.Space.{is_blank}
use aha.Model.Identity.{is_lower_hex}
use aha.Model.Identity.Valid
use aha.Encoding.Hex
use aha.Depot.Store.{primitive}
use aha.Prelude.{
  List, ◌++◌, length, ◌≤◌, ◌+◌, true, false, ◌≡◌, ◌≢◌, ◌⊎◌, [], ◌∷◌, none, some, ok, refl,
}
use aha.Text.{Bytes, codes, text_eq}
use aha.Model.Snapshot.Codec.{ManifestSha256}
use aha.Cas.{is_valid_key}
use aha.Depot.Store.Atomic.{merged, atomic_write_created, atomic_write_created-put_if_absent}
use aha.Depot.Store.{Event, Objects, write, World, put_if_absent, get, put_conditional, local_etag}
use aha.Depot.Store.Laws.{found, put_conditional-get}
use aha.Depot.Codec.{encode_machines_index}
use aha.Depot.Machine.{PublishedSnapshot, expect_absent, latest}
use aha.Depot.Store.Quiet.{quietly}
use aha.Depot.Publish.{set_latest}
use aha.Depot.Publish.Bounded.{set_latest_bounded}
use aha.Depot.Publish.Quiet.{Registers, no_index, no_pointer, set_latest-quietly}
use aha.Examples.Digest.{weak_digest, weak_digest-IsDigest}
use aha.Examples.Documents.{externals, session_sha}

abbrev pub no_objects : Objects
no_objects k = none

-- Another process writes the object before the call.
abbrev raced : World
raced = record {
  objects = no_objects;
  events = record { change = λ o. write o (codes "k") (codes "theirs"); fails = false } ∷ [];
}

atomic_write_created-put_if_absent_example :
    (ran : List Event) × (rest : List Event) × (raced.events ≡ ran ++ rest)
    × (put_if_absent
          (codes "k")
          (codes "ours")
          (record { objects = no_objects; events = merged ran ∷ rest })
        ≡ atomic_write_created (codes "k") (codes "ours") raced)
atomic_write_created-put_if_absent_example =
    atomic_write_created-put_if_absent (codes "k") (codes "ours") no_objects raced.events

abbrev pub quiet : Objects → World
quiet o = record { objects = o; events = [] }

abbrev one : Objects
one = write no_objects (codes "latest") (codes "v1")

abbrev tag : Bytes
tag = local_etag weak_digest (codes "v1")

read_one : get weak_digest (codes "latest") (quiet one) ≡ (ok (codes "v1", tag), quiet one)
unfolding get write primitive text_eq
read_one = refl

replaced :
    put_conditional weak_digest (codes "latest") (codes "v2!") tag (quiet one)
    ≡ (ok tt, quiet (write one (codes "latest") (codes "v2!")))
unfolding put_conditional primitive write text_eq local_etag Hex.encode
replaced = refl

put_conditional-get_example :
    ((cur : Bytes) × (found (quiet one) (codes "latest") ≡ some cur)
      × ((cur ≡ codes "v1") ⊎ ((cur ≢ codes "v1") × (weak_digest cur ≡ weak_digest (codes "v1")))))
    × (write one (codes "latest") (codes "v2!")
        ≡ write (found (quiet one)) (codes "latest") (codes "v2!"))
put_conditional-get_example =
    put_conditional-get weak_digest weak_digest-IsDigest (codes "latest") (codes "v1") tag
      (codes "v2!") (quiet one) (quiet one) (quiet one)
      (quiet (write one (codes "latest") (codes "v2!"))) read_one replaced

abbrev a_manifest_sha : ManifestSha256
a_manifest_sha = record { value = session_sha }

session_sha_valid : is_valid_key session_sha ≡ true
unfolding is_valid_key Valid.sha256_hex is_lower_hex
session_sha_valid = refl

abbrev first_publication : PublishedSnapshot
first_publication = record {
  machine = codes "laptop";
  sha = a_manifest_sha;
  expected = expect_absent;
}

may_register : Registers externals no_objects (codes "laptop")
unfolding encode_machines_index is_blank
may_register = no_index refl refl

set_latest-quietly_example :
    (q : Objects) × (set_latest externals (codes "laptop") first_publication (quietly no_objects)
      ≡ (ok tt, quietly q))
    × (latest externals (codes "laptop") (quietly q) ≡ (ok (some a_manifest_sha), quietly q))
unfolding is_valid_expectation
set_latest-quietly_example =
    set_latest-quietly externals weak_digest-IsDigest no_objects first_publication session_sha_valid
      refl (no_pointer refl refl) may_register

set_latest_bounded_example :
    length raced.events
    ≤ length (set_latest externals (codes "laptop") first_publication raced).1.events + 96
set_latest_bounded_example = set_latest_bounded externals (codes "laptop") first_publication raced
