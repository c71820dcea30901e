-- ===== src/Depot/Address.antt =====
-- internal/depot/depot.go: the addresses of Archives; and the names of buckets of internal/depot/r2.go.
-- `strings.ToLower` is a parameter.
pub mod RoundTrip
use aha.Prelude.{
  ℕ, Bool, true, false, not, ◌&&◌, ◌||◌, List, [], ◌∷◌, ◌++◌, Option, none, some, length, reverse,
  leb, ltb, ◌==◌, if◌then◌else◌, Result, ok, err, ◌>>=◌,
}
use aha.Text.{Bytes, codes, text_eq, has_prefix, contains_text}
use aha.Text.Space.{trim_space}

pub record Address : Type 0 where
  pub type : Bytes
  pub location : Bytes

-- `ArchiveConfig` of internal/model/model.go, less the settings of the R2 client.
pub record ArchiveConfig : Type 0 where
  pub archive_type : Bytes
  pub archive_location : Bytes

pub data AddressError : Type 0 where
  explicit_required local_path_required bucket_placeholder : AddressError
  unsupported_type invalid_bucket : Bytes → AddressError

abbrev pub local : Bytes
local = codes "local"

abbrev pub r2 : Bytes
r2 = codes "r2"

abbrev pub default_r2_bucket : Bytes
default_r2_bucket = codes "aha-archive"

abbrev pub default_address : Address
default_address = record { type = local; location = codes "~/.aha/archive" }

-- `Address.String`
unfoldable pub address_text : Address → Bytes
address_text a = a.type ++ codes ":" ++ a.location

abbrev around : ℕ → Option (Bytes × Bytes) → Option (Bytes × Bytes)
around c none = none
around c (some (before, after)) = some (c ∷ before, after)

-- `strings.Cut(s, ":")`
unfoldable pub cut_colon : Bytes → Option (Bytes × Bytes)
cut_colon [] = none
cut_colon (c ∷ s) = let rest = cut_colon s in if c == 58 then some ([], s) else around c rest

-- A lower-case letter, a digit or a hyphen.
abbrev pub is_bucket_byte : ℕ → Bool
is_bucket_byte c = leb 97 c && leb c 122 || leb 48 c && leb c 57 || c == 45

unfoldable pub all_bucket_bytes : Bytes → Bool
all_bucket_bytes [] = true
all_bucket_bytes (c ∷ s) = is_bucket_byte c && all_bucket_bytes s

-- `strings.HasSuffix(s, "-")`
unfoldable pub ends_in_hyphen : Bytes → Bool
ends_in_hyphen [] = false
ends_in_hyphen (c ∷ []) = c == 45
ends_in_hyphen (c ∷ d ∷ s) = ends_in_hyphen (d ∷ s)

module _ (to_lower : Bytes → Bytes) where
  unfoldable pub looks_like_placeholder : Bytes → Bool
  looks_like_placeholder s =
      let trimmed = trim_space (to_lower s) in
      text_eq trimmed []
      || text_eq trimmed (codes "...")
      || contains_text trimmed (codes "<")
      || contains_text trimmed (codes ">")
      || has_prefix trimmed (codes "your-")

  -- `ParseR2Bucket`
  unfoldable pub parse_r2_bucket : Bytes → Result AddressError Bytes
  parse_r2_bucket s =
      let value = trim_space s in
      if looks_like_placeholder value
      then err bucket_placeholder
      else if ltb (length value) 3
          || ltb 63 (length value)
          || has_prefix value (codes "-")
          || ends_in_hyphen value
      then err (invalid_bucket value)
      else if all_bucket_bytes value
      then ok value
      else err (invalid_bucket value)

  -- The end of `ParseAddress`, on the kind and the location between the spaces.
  unfoldable pub checked_address : Bytes → Bytes → Result AddressError Address
  checked_address kind place =
      let loc = if text_eq kind r2 && text_eq place [] then default_r2_bucket else place in
      if text_eq kind local && text_eq loc []
      then err local_path_required
      else if not (text_eq kind local) && not (text_eq kind r2)
      then err (unsupported_type kind)
      else if text_eq kind r2
      then (parse_r2_bucket loc >>= λ bucket. ok (record { type = kind; location = bucket }))
      else ok (record { type = kind; location = loc })

  abbrev cut_address : Bytes → Option (Bytes × Bytes) → Result AddressError Address
  cut_address s none = ok (record { type = local; location = s })
  cut_address s (some (kind, place)) =
      checked_address (to_lower (trim_space kind)) (trim_space place)

  unfoldable pub parse_address : Bytes → Result AddressError Address
  parse_address text =
      let s = trim_space text in
      if text_eq s []
      then ok default_address
      else if text_eq s r2
      then ok (record { type = r2; location = default_r2_bucket })
      else cut_address s (cut_colon s)

  abbrev if_cut : Option (Bytes × Bytes) → Result AddressError Address → Result AddressError Address
  if_cut none r = err explicit_required
  if_cut (some p) r = r

  unfoldable pub parse_explicit_address : Bytes → Result AddressError Address
  parse_explicit_address text =
      let trimmed = trim_space text in if_cut (cut_colon trimmed) (parse_address trimmed)

  unfoldable pub address_from_config : ArchiveConfig → Result AddressError Address
  address_from_config cfg =
      let kind = to_lower (trim_space cfg.archive_type) in
      let place = trim_space cfg.archive_location in
      if text_eq kind []
      then ok default_address
      else if text_eq kind local
      then (if text_eq place []
          then err local_path_required
          else ok (record { type = kind; location = place }))
      else if text_eq kind r2
      then (parse_r2_bucket (if text_eq place [] then default_r2_bucket else place) >>= λ bucket.
          ok (record { type = kind; location = bucket }))
      else err (unsupported_type kind)

unfoldable pub config_from_address : Address → ArchiveConfig
config_from_address a = record { archive_type = a.type; archive_location = a.location }
