-- ===== src/Examples/Digest.antt =====
-- A concrete digest of 32 bytes in the place of SHA-256, and a concrete stream format in the place of
-- zstd, for the runs at concrete inputs.
use aha.Prelude.{◌%◌, [], ◌∷◌, Option, none, some, arith, refl, length}
use aha.Text.{Bytes}
use aha.Model.Identity.Keys.{IsDigest}
use aha.Cas.{Zstd}

abbrev pub zeros_31 : Bytes
zeros_31 =
    0 ∷ 0 ∷ 0 ∷ 0 ∷ 0 ∷ 0 ∷ 0 ∷ 0 ∷ 0 ∷ 0 ∷ 0 ∷ 0 ∷ 0 ∷ 0 ∷ 0 ∷ 0 ∷ 0 ∷ 0 ∷ 0 ∷ 0 ∷ 0 ∷ 0 ∷ 0 ∷ 0
    ∷ 0 ∷ 0 ∷ 0 ∷ 0 ∷ 0 ∷ 0 ∷ 0 ∷ []

abbrev pub weak_digest : Bytes → Bytes
weak_digest s = length s % 256 ∷ zeros_31

pub weak_digest-IsDigest : IsDigest weak_digest
weak_digest-IsDigest s = (refl, ground arith)

-- A frame begins with the byte 40.
abbrev pub unframe : Bytes → Option Bytes
unframe [] = none
unframe (c ∷ s) = some s

abbrev pub frame : Zstd
frame = record { compress = λ s. 40 ∷ s; decompress = unframe; decompress-compress = λ s. refl }
