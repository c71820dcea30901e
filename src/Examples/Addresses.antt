-- ===== src/Examples/Addresses.antt =====
-- An address with spaces in it.
use aha.Prelude.{◌≡◌, refl, ok}
use aha.Text.{Bytes, codes, text_eq, contains_text, has_prefix}
use aha.Text.Space.{trim_space}
use aha.Text.Space.Printable.{IsPrintable}
use aha.Depot.Address.{
  Address, r2, address_text, parse_address, cut_colon, checked_address, parse_r2_bucket,
  looks_like_placeholder, all_bucket_bytes, ends_in_hyphen,
}
use aha.Depot.Address.RoundTrip.{IsAddress, parse-address_text}

abbrev as_it_is : Bytes → Bytes
as_it_is s = s

abbrev my_archive : Address
my_archive = record { type = r2; location = codes "my-archive" }

parse-address_text_example :
    IsAddress as_it_is my_archive
    × (IsPrintable my_archive.location
        → parse_address as_it_is (address_text my_archive) ≡ ok my_archive)
unfolding parse_address cut_colon checked_address parse_r2_bucket looks_like_placeholder
    all_bucket_bytes ends_in_hyphen text_eq contains_text has_prefix trim_space
parse-address_text_example =
    parse-address_text as_it_is (λ s h. refl) (codes " r2: my-archive ") refl
