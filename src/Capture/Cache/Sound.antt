-- ===== src/Capture/Cache/Sound.antt =====
-- The rule of the scan cache on modification times: what it vouches for has not changed.
use aha.Prelude.{
  ◌≢◌, ◌==◌, ◌&&◌, ◌||◌, Bool, true, false, not, Option, none, some, if◌then◌else◌, ◌≡◌, ◌⊎◌, inl,
  inr, refl, sym, ap, ◌∙◌, arith, Result, ok, err,
}
use aha.Prelude.Int.{int_eq, int_eq_iff, ℤ, int_ltb, lt_of_lt_le, le_of_le_le, le_refl}
use aha.Text.{Bytes, text_eq, text_eq_refl}
use aha.Text.Dict.{get, put, get-put}
use aha.Model.Identity.{IdentityError, Sha256Hex, parse_sha256_hex}
use aha.Capture.Cache.{
  FileInfo, CacheEntry, CaptureCache, load, saved, found_sha, check_entry, lookup, record_hash,
}

pub record File : Type 0 where
  pub content : Bytes
  pub info : FileInfo

-- A status that the cache can tell from another: the size, the modification time or, where both have
-- one, the inode is another.
pub data Differs (st st' : FileInfo) : Type 0 where
  size_differs : st'.size ≢ st.size → Differs st st'
  time_differs : st'.mtime_ns ≢ st.mtime_ns → Differs st st'
  inode_differs : st.inode ≢ 0 → st'.inode ≢ 0 → st'.inode ≢ st.inode → Differs st st'

-- What becomes of a file as the clock goes on. A write changes it at will, and sets its modification
-- time to the clock in nanoseconds, or to a later time. Other changes at a path, such as a file put
-- there with the times it had, are those that `may` allows.
pub data Ages (may : File → Type 0) (t : ℤ) (f : File) : ℤ → File → Type 0 where
  still : Ages may t f t f
  passes : {u v : ℤ} {g : File} → Ages may t f u g → int_ltb v u ≡ false → Ages may t f v g
  written :
      {u : ℤ} {g : File} (h : File)
      → Ages may t f u g
      → int_ltb h.info.mtime_ns u ≡ false
      → Ages may t f u h
  replaced : {u : ℤ} {g : File} (h : File) → Ages may t f u g → may h → Ages may t f u h

-- The clock does not go back, and a file that is not the same was modified since, or replaced last.
Ages-cases :
    {may : File → Type 0} {t : ℤ} {f : File} {u : ℤ} {g : File}
    → Ages may t f u g
    → (int_ltb u t ≡ false) × ((g ≡ f) ⊎ ((int_ltb g.info.mtime_ns t ≡ false) ⊎ may g))
Ages-cases {may} {t} still = (le_refl t, inl refl)
Ages-cases {may} {t} (passes {u} {v} before h) =
    let (p, q) = Ages-cases before in (le_of_le_le t u v p h, q)
Ages-cases {may} {t} (written {u} h before m) =
    let (p, q) = Ages-cases before in (p, inr (inl (le_of_le_le t u h.info.mtime_ns p m)))
Ages-cases {may} {t} (replaced h before m) = let (p, q) = Ages-cases before in (p, inr (inr m))

guard-hit :
    (b : Bool) (k : Option Bytes) {sha : Bytes}
    → (if b then none else k) ≡ some sha
    → (b ≡ false) × (k ≡ some sha)
guard-hit true k h = cc
guard-hit false k h = (refl, h)

found_sha-hit : (s : Bytes) {sha : Bytes} → found_sha s ≡ some sha → sha ≡ s
found_sha-hit s h = parsed (parse_sha256_hex s) h
  where
    parsed :
        (r : Result IdentityError Sha256Hex) {sha : Bytes}
        → (elim r [ err e ↦ none | ok k ↦ some s ]) ≡ some sha
        → sha ≡ s
    parsed (err e) h = cc
    parsed (ok k) h = cc

not-false : (b : Bool) → not b ≡ false → b ≡ true
not-false b h = ground arith

check_entry-hit :
    (c : CaptureCache) (st : FileInfo) (e : CacheEntry) {sha : Bytes}
    → check_entry c st (some e) ≡ some sha
    → (¬ Differs e.stat st) × (int_ltb st.mtime_ns c.written_at ≡ true) × (sha ≡ e.sha256)
unfolding check_entry
check_entry-hit c st e h =
    let (b1, h1) = guard-hit _ _ h in
    let (b2, h2) = guard-hit _ _ h1 in
    let (b3, h3) = guard-hit _ _ h2 in (told b1 b2, not-false _ b3, found_sha-hit e.sha256 h3)
  where
    told :
        (not (int_eq st.size e.stat.size) || not (int_eq st.mtime_ns e.stat.mtime_ns)) ≡ false
        → (not (st.inode == 0) && not (e.stat.inode == 0) && not (st.inode == e.stat.inode)) ≡ false
        → ¬ Differs e.stat st
    told p q (size_differs n) = ground (arith, int_eq_iff st.size e.stat.size)
    told p q (time_differs n) = ground (arith, int_eq_iff st.mtime_ns e.stat.mtime_ns)
    told p q (inode_differs m n k) = ground arith

-- A file that was modified before an instant, and whose status is the stated one, has not changed.
unchanged :
    (opened : ℤ) {read stated later : ℤ} {f g h : File}
    → int_ltb read opened ≡ false
    → int_ltb h.info.mtime_ns opened ≡ true
    → ¬ Differs g.info h.info
    → Ages (λ _. ⊥) read f stated g
    → Ages (λ k. Differs g.info k.info) stated g later h
    → h.content ≡ f.content
unchanged opened {read} {stated} {later} {f} {g} {h} o old alike a b =
    let (p, q) = Ages-cases a in
    let (p', q') = Ages-cases b in
    let early = lt_of_lt_le h.info.mtime_ns opened read old o in
    elim q' [
      | inr (inl late) ↦ cc (early, le_of_le_le read stated h.info.mtime_ns p late)
      | inr (inr d) ↦ absurd (alike d)
      | inl e ↦ elim q [
        | inr (inl late) ↦ cc (early, late, ap (λ (x : File). int_ltb x.info.mtime_ns read) e)
        | inr (inr n) ↦ absurd n
        | inl e' ↦ ap (λ (x : File). x.content) (e ∙ e')
      ]
    ]

-- A capture opens the cache, then reads a file, takes its status once it is read, records the hash of what it
-- read and saves the cache. When a later capture loads this cache and looks the file up, a hash that it finds is
-- that of the content that the file then has. Here every write of the file sets its modification time to the
-- clock in nanoseconds or later; and once the status was taken, the file may also be replaced by any
-- other at will whose size, modification time or inode differs from the recorded one.
pub lookup_sound :
    (hash_of : Bytes → Bytes) (c : CaptureCache) (path : Bytes) (now : ℤ) {read stated later : ℤ}
    {f g h : File}
    → int_ltb read c.opened_at ≡ false
    → Ages (λ _. ⊥) read f stated g
    → Ages (λ k. Differs g.info k.info) stated g later h
    → {sha : Bytes}
    → lookup (load now (some (saved (record_hash c path g.info (hash_of f.content))))) path h.info
      ≡ some sha
    → sha ≡ hash_of h.content
unfolding lookup load saved record_hash get put text_eq
lookup_sound hash_of c path now {read} {stated} {later} {f} {g} {h} o a b {sha} found =
    let entry : CacheEntry = record { stat = g.info; sha256 = hash_of f.content } in
    let here : get (put c.entries path entry) path ≡ some entry =
      get-put c.entries path entry path
      ∙ ap (λ x. if x then some entry else get c.entries path) (text_eq_refl path) in
    let after : CaptureCache = record {
      written_at = c.opened_at;
      opened_at = now;
      entries = put c.entries path entry;
    } in
    let (alike, old, same) =
      check_entry-hit after h.info entry (sym (ap (check_entry after h.info) here) ∙ found) in
    same ∙ ap hash_of (sym (unchanged c.opened_at o old alike a b))
