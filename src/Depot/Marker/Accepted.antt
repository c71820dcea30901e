-- ===== src/Depot/Marker/Accepted.antt =====
-- The marker that `Init` writes is one that this program reads and writes under.
use aha.Depot.Marker.{validate_archive_feature_name}
use aha.Prelude.Int.{int_ltb}
use aha.Prelude.Int.{int_eq}
use aha.Depot.Marker.{is_legacy}
use aha.Prelude.{◌++◌, true, false, ◌≡◌, refl, some, ok}
use aha.Text.{Bytes, text_eq, contains}
use aha.Text.Space.{is_blank}
use aha.Encoding.Json.{Json, newline}
use aha.Depot.Codec.{unmarshal}
use aha.Depot.Marker.{
  Marker, fresh_marker, marker_bytes, check_marker, is_current, decode_marker,
  decode_and_validate_marker_for_read, validate_marker_for_write,
}

fresh_marker_checked :
    (id at by : Bytes) → is_blank id ≡ false → check_marker (fresh_marker id at by) ≡ ok tt
unfolding check_marker fresh_marker is_legacy text_eq is_current int_eq int_ltb
    validate_archive_feature_name is_blank contains
fresh_marker_checked id at by h = rw h refl

module _ (json : Json Marker) where
  marker_read : (m : Marker) → json.keeps m ≡ true → decode_marker json (marker_bytes json m) ≡ ok m
  unfolding marker_bytes decode_marker
  marker_read m k =
      let u : unmarshal json (json.marshal m ++ newline) ≡ some m =
        rw (json.decode-marshal m k, unmarshal) refl in
      rw (u, decode_marker) refl

  read_fresh :
      (id at by : Bytes)
      → is_blank id ≡ false
      → json.keeps (fresh_marker id at by) ≡ true
      → decode_and_validate_marker_for_read json (marker_bytes json (fresh_marker id at by))
        ≡ ok (fresh_marker id at by)
  unfolding decode_and_validate_marker_for_read
  read_fresh id at by h k =
      rw (marker_read (fresh_marker id at by) k, fresh_marker_checked id at by h) refl

  -- The marker that `Init` creates is accepted by a reader, which gets it back, and by a writer, where
  -- its identity is not blank and its strings are valid UTF-8.
  pub validate-fresh_marker :
      (id at by : Bytes)
      → is_blank id ≡ false
      → json.keeps (fresh_marker id at by) ≡ true
      → (decode_and_validate_marker_for_read json (marker_bytes json (fresh_marker id at by))
          ≡ ok (fresh_marker id at by))
        × (validate_marker_for_write json (marker_bytes json (fresh_marker id at by)) ≡ ok tt)
  unfolding validate_marker_for_write
  validate-fresh_marker id at by h k =
      let r = read_fresh id at by h k in
      (r, rw (r, validate_marker_for_write) (unfold fresh_marker is_current text_eq in refl))
