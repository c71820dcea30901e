-- ===== src/Capture/Cache.antt =====
-- internal/archive/capture_cache.go: the scan cache, which lets a capture skip files that look
-- unchanged. encoding/json is a parameter.
pub mod Sound
use aha.Prelude.{
  ℕ, Bool, true, false, not, ◌&&◌, ◌||◌, ◌==◌, List, [], ◌∷◌, Option, none, some, if◌then◌else◌, ok,
  err,
}
use aha.Prelude.Int.{ℤ, pos, int_eq, int_ltb}
use aha.Text.{Bytes, codes, text_eq, contains}
use aha.Text.Dict.{Dict, get, put}
use aha.Model.Identity.{parse_sha256_hex}

-- What is read of a file's status; the inode is 0 where there is none. Times are in nanoseconds.
pub record FileInfo : Type 0 where
  pub size : ℤ
  pub mtime_ns : ℤ
  pub inode : ℕ

pub record CacheEntry : Type 0 where
  pub stat : FileInfo
  pub sha256 : Bytes

pub record CaptureCache : Type 0 where
  pub written_at : ℤ
  pub opened_at : ℤ
  pub entries : Dict CacheEntry

-- `entries` is `none` for Go's nil.
pub record CacheFile : Type 0 where
  pub schema : Bytes
  pub written_at_ns : ℤ
  pub file_entries : Option (Dict CacheEntry)

abbrev pub cache_schema : Bytes
cache_schema = codes "aha-capture-cache/v1"

abbrev loaded : ℤ → CacheFile → Option (Dict CacheEntry) → CaptureCache
loaded now f none = record { written_at = pos 0; opened_at = now; entries = [] }
loaded now f (some es) =
    if text_eq f.schema cache_schema
    then record { written_at = f.written_at_ns; opened_at = now; entries = es }
    else record { written_at = pos 0; opened_at = now; entries = [] }

-- `LoadCaptureCache` at an instant, given the file where it can be read and parsed.
unfoldable pub load : ℤ → Option CacheFile → CaptureCache
load now none = record { written_at = pos 0; opened_at = now; entries = [] }
load now (some f) = loaded now f f.file_entries

-- The file that `Save` writes.
unfoldable pub saved : CaptureCache → CacheFile
saved c = record {
  schema = cache_schema;
  written_at_ns = c.opened_at;
  file_entries = some c.entries;
}

abbrev pub found_sha : Bytes → Option Bytes
found_sha sha = elim (parse_sha256_hex sha) [ err e ↦ none | ok h ↦ some sha ]

-- The tests of `Lookup` on an entry.
unfoldable pub check_entry : CaptureCache → FileInfo → Option CacheEntry → Option Bytes
check_entry c st none = none
check_entry c st (some e) =
    if not (int_eq st.size e.stat.size) || not (int_eq st.mtime_ns e.stat.mtime_ns)
    then none
    else if not (st.inode == 0) && not (e.stat.inode == 0) && not (st.inode == e.stat.inode)
    then none
    else if not (int_ltb st.mtime_ns c.written_at)
    then none
    else found_sha e.sha256

unfoldable pub lookup : CaptureCache → Bytes → FileInfo → Option Bytes
unfolding check_entry
lookup c path st = check_entry c st (get c.entries path)

unfoldable pub record_hash : CaptureCache → Bytes → FileInfo → Bytes → CaptureCache
record_hash c path st sha = record c {
  entries = put c.entries path (record { stat = st; sha256 = sha });
}

unfoldable pub retain_entries : List Bytes → Dict CacheEntry → Dict CacheEntry
retain_entries keep [] = []
retain_entries keep ((path, e) ∷ es) =
    let rest = retain_entries keep es in if contains keep path then (path, e) ∷ rest else rest

unfoldable pub retain : CaptureCache → List Bytes → CaptureCache
unfolding retain_entries
retain c keep = record c { entries = retain_entries keep c.entries }
