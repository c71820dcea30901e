-- ===== src/Depot/Marker/Writable.antt =====
-- What a marker declares under which this program writes.
use aha.Prelude.{
  true, not, ◌&&◌, ◌||◌, ◌≡◌, ◌⊎◌, inl, inr, refl, List, [], ◌∷◌, ok, All, arith, >>=-eq-ok,
  >>-eq-ok, fail_if-eq-ok, Bool-cases, subst,
}
use aha.Text.{Bytes, text_eq, contains}
use aha.Text.Space.{is_blank}
use aha.Prelude.Int.{pos, int_eq, int_ltb}
use aha.Encoding.Json.{Json}
use aha.Depot.Marker.{
  Marker, supported_archive_features, full_manifest_feature, archive_writer_fence_feature,
  check_marker, is_current, is_legacy, required_loop, validate_archive_feature_name,
  decode_and_validate_marker_for_read, validate_marker_for_write, decode_marker, found_major,
  supported_major,
}

abbrev pub AllSupported : List Bytes → Type 0
AllSupported fs = All (λ f. contains supported_archive_features f ≡ true) fs

-- From the head of the seen features to the head of the list.
shifted :
    (f g : Bytes) (seen fs : List Bytes)
    → (contains (f ∷ seen) g ≡ true) ⊎ (contains fs g ≡ true)
    → (contains seen g ≡ true) ⊎ (contains (f ∷ fs) g ≡ true)
unfolding contains
shifted f g seen fs (inr k) = inr (ground arith)
shifted f g seen fs (inl k) = elim (Bool-cases (text_eq f g)) [
  | inl e ↦ inr (rw e refl)
  | inr e ↦ inl (rw e at k)
]

-- The loop returns what it was given and the features of the list, all of them supported.
required_loop-AllSupported :
    (seen fs out : List Bytes)
    → required_loop seen fs ≡ ok out
    → AllSupported fs
      × ((f : Bytes) → contains out f ≡ true → (contains seen f ≡ true) ⊎ (contains fs f ≡ true))
unfolding required_loop
required_loop-AllSupported seen [] out h = (tt, λ f k. inl (ground arith))
required_loop-AllSupported seen (f ∷ fs) out h =
    let (_, h1) = >>-eq-ok (validate_archive_feature_name f) _ h in
    let (_, h2) = fail_if-eq-ok (contains seen f) _ _ h1 in
    let (s, h3) = fail_if-eq-ok (not (contains supported_archive_features f)) _ _ h2 in
    let (a, b) = required_loop-AllSupported (f ∷ seen) fs out h3 in
    ((ground arith, a), λ g k. shifted f g seen fs (b g k))

from_list :
    (f : Bytes) (fs : List Bytes)
    → (contains [] f ≡ true) ⊎ (contains fs f ≡ true)
    → contains fs f ≡ true
unfolding contains
from_list f fs (inl h) = cc
from_list f fs (inr h) = h

features_declared :
    (m : Marker)
    → check_marker m ≡ ok tt
    → is_current m ≡ true
    → AllSupported m.required_features
      × (contains m.required_features full_manifest_feature ≡ true)
      × (contains m.required_features archive_writer_fence_feature ≡ true)
unfolding check_marker
features_declared m h c =
    let (_, h1) = fail_if-eq-ok (is_blank m.depot_id) _ _ h in
    let (_, h2) = fail_if-eq-ok (not (is_legacy m) && not (is_current m)) _ _ h1 in
    let (_, h3) =
      fail_if-eq-ok
        (not (int_eq (found_major m) (supported_major m)) || int_ltb (pos 0) m.format_minor) _ _
        h2 in
    let (out, e, h4) = >>=-eq-ok (required_loop [] m.required_features) _ h3 in
    let (b, h5) = fail_if-eq-ok (not (contains out full_manifest_feature) && is_current m) _ _ h4 in
    let (d, h6) =
      fail_if-eq-ok (is_current m && not (contains out archive_writer_fence_feature)) _ _ h5 in
    let (s, k) = required_loop-AllSupported [] m.required_features out e in
    (
      s,
      from_list full_manifest_feature m.required_features (k full_manifest_feature (ground arith)),
      from_list archive_writer_fence_feature m.required_features
          (k archive_writer_fence_feature (ground arith)),
    )

-- A marker that a writer accepts is of the current format, and its required features are all
-- supported and include the full manifest and the writer fence.
pub validate_marker_for_write_sound :
    (json : Json Marker) (b : Bytes)
    → validate_marker_for_write json b ≡ ok tt
    → (m : Marker) × (decode_and_validate_marker_for_read json b ≡ ok m)
      × (is_current m ≡ true)
      × AllSupported m.required_features
      × (contains m.required_features full_manifest_feature ≡ true)
      × (contains m.required_features archive_writer_fence_feature ≡ true)
unfolding validate_marker_for_write decode_and_validate_marker_for_read
validate_marker_for_write_sound json b h =
    let (m, e, h1) = >>=-eq-ok (decode_and_validate_marker_for_read json b) _ h in
    let (n, d, h2) = >>=-eq-ok (decode_marker json b) _ e in
    let (k, h3) = >>-eq-ok (check_marker n) _ h2 in
    let same : n ≡ m = cc (h3) in
    let c : is_current m ≡ true = ground arith in
    let (s, f, w) = features_declared m (subst (λ u. check_marker u ≡ ok tt) same k) c in
    (m, e, c, s, f, w)
