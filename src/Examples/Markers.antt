-- ===== src/Examples/Markers.antt =====
-- A fresh marker, and `Init` on an Archive that has one.
use aha.Prelude.{false, ◌≡◌, some, refl, ok}
use aha.Text.{codes}
use aha.Text.Space.{is_blank}
use aha.Encoding.Json.{Json}
use aha.Depot.Keys.{marker_object_key}
use aha.Depot.Store.{write, World}
use aha.Depot.Store.Laws.{write_same}
use aha.Depot.Marker.{
  Marker, fresh_marker, marker_bytes, decode_and_validate_marker_for_read,
  validate_marker_for_write,
}
use aha.Depot.Marker.Accepted.{validate-fresh_marker}
use aha.Depot.Marker.Writable.{AllSupported, validate_marker_for_write_sound}
use aha.Text.{contains}
use aha.Depot.Marker.{is_current, full_manifest_feature, archive_writer_fence_feature}
use aha.Prelude.{true}
use aha.Depot.Init.{init}
use aha.Depot.Init.Safety.{init-write_once}
use aha.Examples.Format.{Format, text_format, int_format, list_format, ◌&◌, convert, json_of}
use aha.Examples.Documents.{externals}
use aha.Examples.Store.{no_objects, quiet}

abbrev pub marker_format : Format Marker
marker_format =
    convert
      (text_format
        & text_format
        & text_format
        & int_format
        & int_format
        & list_format text_format
        & list_format text_format
        & text_format
        & text_format)
      (λ (a, (b, (c, (d, (e, (f, (g, (h, i)))))))). record {
        schema = a;
        depot_id = b;
        layout = c;
        format_major = d;
        format_minor = e;
        required_features = f;
        optional_features = g;
        created_at = h;
        created_by = i;
      })
      (λ m. (
        m.schema,
        (
          m.depot_id,
          (
            m.layout,
            (
              m.format_major,
              (
                m.format_minor,
                (m.required_features, (m.optional_features, (m.created_at, m.created_by))),
              ),
            ),
          ),
        ),
      ))
      (λ m. refl)

abbrev pub markers : Json Marker
markers = json_of marker_format

abbrev pub ours : Marker
ours = fresh_marker (codes "depot-7") (codes "2026-01-02T03:04:05Z") (codes "aha 0.2")

depot_7_not_blank : is_blank (codes "depot-7") ≡ false
unfolding is_blank
depot_7_not_blank = refl

validate-fresh_marker_example :
    (decode_and_validate_marker_for_read markers (marker_bytes markers ours) ≡ ok ours)
    × (validate_marker_for_write markers (marker_bytes markers ours) ≡ ok tt)
validate-fresh_marker_example =
    validate-fresh_marker markers (codes "depot-7") (codes "2026-01-02T03:04:05Z") (codes "aha 0.2")
      depot_7_not_blank refl

abbrev marked : World
marked = quiet (write no_objects marker_object_key (codes "{}"))

init-write_once_example :
    (init externals markers ours marked).1.objects marker_object_key ≡ some (codes "{}")
init-write_once_example =
    init-write_once externals markers ours marker_object_key (codes "{}") marked tt
      (write_same no_objects marker_object_key (codes "{}"))

ours_written : validate_marker_for_write markers (marker_bytes markers ours) ≡ ok tt
ours_written =
    (validate-fresh_marker markers (codes "depot-7") (codes "2026-01-02T03:04:05Z")
      (codes "aha 0.2") depot_7_not_blank refl).1

validate_marker_for_write_sound_example :
    (m : Marker) × (decode_and_validate_marker_for_read markers (marker_bytes markers ours) ≡ ok m)
    × (is_current m ≡ true)
    × AllSupported m.required_features
    × (contains m.required_features full_manifest_feature ≡ true)
    × (contains m.required_features archive_writer_fence_feature ≡ true)
validate_marker_for_write_sound_example =
    validate_marker_for_write_sound markers (marker_bytes markers ours) ours_written
