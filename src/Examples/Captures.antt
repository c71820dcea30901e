-- ===== src/Examples/Captures.antt =====
-- A file that a capture hashes and a later one finds unchanged.
use aha.Model.Identity.{to_lower_ascii}
use aha.Encoding.Hex
use aha.Model.Identity.{parse_sha256_hex}
use aha.Prelude.Int.{int_eq}
use aha.Text.Dict.{put}
use aha.Text.{text_eq}
use aha.Text.Dict.{get}
use aha.Prelude.{[], ◌∷◌, none, some, ◌≡◌, refl}
use aha.Prelude.Int.{pos, int_ltb}
use aha.Text.{Bytes, codes}
use aha.Capture.Cache.{FileInfo, CaptureCache, load, saved, lookup, record_hash}
use aha.Capture.Cache.Sound.{File, Ages, still, passes, lookup_sound}

abbrev sha_a : Bytes
sha_a = codes "00112233445566778899aabbccddeeff00112233445566778899aabbccddeeff"

abbrev sha_b : Bytes
sha_b = codes "ffeeddccbbaa99887766554433221100ffeeddccbbaa99887766554433221100"

abbrev hash_a_or_b : Bytes → Bytes
hash_a_or_b [] = sha_b
hash_a_or_b (c ∷ s) = sha_a

abbrev old_info : FileInfo
old_info = record { size = pos 1; mtime_ns = pos 5; inode = 0 }

abbrev old_file : File
old_file = record { content = codes "a"; info = old_info }

abbrev first_cache : CaptureCache
first_cache = load (pos 10) none

hash_stays : Ages (λ _. ⊥) (pos 11) old_file (pos 12) old_file
unfolding int_ltb
hash_stays = passes still refl

lookup_sound_example : sha_a ≡ hash_a_or_b (codes "a")
unfolding int_ltb load lookup saved record_hash get put text_eq int_eq parse_sha256_hex Hex.decode
    to_lower_ascii
lookup_sound_example =
    lookup_sound hash_a_or_b first_cache (codes "/s") (pos 20) refl hash_stays still refl

-- The file is rewritten, with one size and within one tick of its modification time, after it is read and
-- recorded at 11. A capture that is opened at 20 passes it over and saves the cache as it is. The next one
-- is given the hash of the content before the change.
abbrev second_cache : CaptureCache
second_cache = load (pos 20) (
    some
      (saved (record_hash first_cache (codes "/s") (record old_info { mtime_ns = pos 11 }) sha_a)))

abbrev third_cache : CaptureCache
third_cache = load (pos 30) (some (saved second_cache))

stale_after_scoped_capture :
    lookup third_cache (codes "/s") (record old_info { mtime_ns = pos 11 }) ≡ some sha_a
unfolding lookup get load saved text_eq record_hash put int_eq int_ltb parse_sha256_hex Hex.decode
    to_lower_ascii
stale_after_scoped_capture = refl

fresh_before : lookup second_cache (codes "/s") (record old_info { mtime_ns = pos 11 }) ≡ none
unfolding lookup get load saved text_eq record_hash put int_eq int_ltb
fresh_before = refl
