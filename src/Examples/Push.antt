-- ===== src/Examples/Push.antt =====
-- A push of one session into a small Archive, interrupted at its fourth call.
use aha.Prelude.{true, false, ◌≡◌, some, [], ◌∷◌, refl}
use aha.Text.{Bytes, codes}
use aha.Depot.Keys.{blob_object_key}
use aha.Depot.Keys.Namespaces.{blob_apart}
use aha.Depot.Store.{Objects, write, Event, World}
use aha.Depot.Store.Laws.{write_same}
use aha.Depot.Push.{BlobSource, push}
use aha.Depot.Push.Safety.{Sound, push-Sound, push-write_once}
use aha.Examples.Digest.{weak_digest, weak_digest-IsDigest}
use aha.Examples.Documents.{externals, one_session}
use aha.Examples.Store.{no_objects}

abbrev pub session_source : BlobSource
session_source key = some (codes "{\"role\":\"user\"}\n\n")

-- Other processes do nothing; the fourth call fails.
abbrev calm : Event
calm = record { change = λ o. o; fails = false }

abbrev failing : Event
failing = record { change = λ o. o; fails = true }

abbrev interrupted : Objects → World
interrupted o = record { objects = o; events = calm ∷ calm ∷ calm ∷ failing ∷ [] }

push-Sound_example :
    Sound externals
      (push externals session_source one_session false (interrupted no_objects)).1.objects
push-Sound_example =
    push-Sound externals session_source one_session false (interrupted no_objects) refl
      (λ o h. h, (λ o h. h, (λ o h. h, (λ o h. h, tt)))) (λ k s e. cc, λ m s b e. cc)

abbrev earlier : Bytes
earlier = blob_object_key (codes "0000000000000000000000000000000000000000000000000000000000000000")

abbrev one_blob : Objects
one_blob = write no_objects earlier (codes "(zstd")

push-write_once_example :
    (push externals session_source one_session false (interrupted one_blob)).1.objects earlier
    ≡ some (codes "(zstd")
push-write_once_example =
    push-write_once externals session_source one_session false earlier (codes "(zstd")
      (interrupted one_blob) (blob_apart weak_digest weak_digest-IsDigest _ (codes "Work Mac") []).1
      (blob_apart weak_digest weak_digest-IsDigest _ [] []).2
      (λ o h. h, (λ o h. h, (λ o h. h, (λ o h. h, tt))))
      (write_same no_objects earlier (codes "(zstd"))
