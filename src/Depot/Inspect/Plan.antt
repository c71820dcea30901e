-- ===== src/Depot/Inspect/Plan.antt =====
-- The plan of an inspection over both stores of an Archive that nobody changes meanwhile.
use aha.Prelude.{
  subst, Bool, true, false, some, Result, ok, err, ◌≡◌, refl, sym, ap, ◌∙◌, ok_inj, err_not_ok,
  none_not_some,
}
use aha.Text.{Bytes, text_eq}
use aha.Encoding.Json.{Json}
use aha.Depot.Keys.{marker_object_key}
use aha.Depot.Store.{Objects, World, Depot, DepotError, pure}
use aha.Depot.Store.Quiet.{quietly}
use aha.Depot.Store.Steps.{Returns, ends_at}
use aha.Depot.Store.Reads.{value, Reads, read_attempt}
use aha.Depot.Codec.{Externals}
use aha.Depot.Init.{reject_legacy_archive}
use aha.Depot.Marker.{marker_schema_current, decode_and_validate_marker_for_read, Marker, bound}
use aha.Depot.Download.{DownloadPlan, plan_download}
use aha.Depot.Prepare.{
  Stores, in_data, continue_in, marker_then_data, read_marker, pull_of, prepare_pull,
}
use aha.Depot.Inspect.{
  Inspection, stopped, readable, ArchiveMetadataReport, is_current_data, inspect_layout,
  inspect_marker, inspect_data, inspect_metadata,
}
use aha.Depot.Inspect.Frozen.{data-Freezes}
use aha.Depot.Inspect.Layout.{
  HasMarker, reject_legacy-Reads, layout-agrees, inspect_marker-Reads, read_marker-Reads, Planless,
  layout-Planless,
}

module _ (x : Externals) (json : Json Marker) (address : Bytes) where
  module _ (ob oc : Objects) where
    -- An Archive that nobody changes.
    abbrev still_stores : Stores
    still_stores = record { base = quietly ob; current = quietly oc }

    abbrev part : Bool → Objects
    part true = oc
    part false = ob

    in_data-part :
        {A : Type 0} (c : Bool) (m : Depot A) {a : A} {v : World}
        → Returns m (quietly (part c)) a v
        → v ≡ quietly (part c)
        → in_data c m still_stores ≡ (ok a, still_stores)
    unfolding in_data
    in_data-part true m h e =
        ap (λ p. (p.0, record { base = quietly ob; current = p.1 })) (ends_at m (quietly oc) e h)
    in_data-part false m h e =
        ap (λ p. (p.0, record { base = p.1; current = quietly oc })) (ends_at m (quietly ob) e h)

    staged :
        {A B : Type 0} (first : Depot A) (is_current : A → Bool) (next : A → Depot B)
        → Reads first
        → marker_then_data first is_current next still_stores
          ≡ continue_in is_current next (value first ob) still_stores
    unfolding marker_then_data
    staged first is_current next r =
        ap (λ p. continue_in is_current next p.0 (record { base = p.1; current = quietly oc }))
          (r ob)

    in_data-Returns :
        {A : Type 0} (c : Bool) (m : Depot A) {a : A} {s : Stores}
        → in_data c m still_stores ≡ (ok a, s)
        → (v : World) × Returns m (quietly (part c)) a v
    unfolding in_data
    in_data-Returns true m h = (_, ap (λ p. (p.0, p.1.current)) h)
    in_data-Returns false m h = (_, ap (λ p. (p.0, p.1.base)) h)

    Agrees : DownloadPlan → Type 0
    Agrees plan =
        (prepare_pull x json address still_stores ≡ (ok plan.reader, still_stores))
        × HasMarker x json address ob plan.reader.is_current
        × (in_data plan.reader.is_current (plan_download x plan.reader) still_stores
            ≡ (ok plan, still_stores))

    laid :
        (i : Inspection)
        → value (inspect_marker x json address) ob ≡ ok i
        → Returns
            (inspect_layout x json address (value (reject_legacy_archive x json) ob))
            (quietly ob)
            i
            (quietly ob)
    unfolding inspect_marker
    laid i q =
        sym (read_attempt (reject_legacy_archive x json) _ ob (reject_legacy-Reads x json address))
        ∙ inspect_marker-Reads x json address ob
        ∙ ap (λ r. (r, quietly ob)) q

    continued-Agrees :
        (r : Result DepotError Inspection) (report : ArchiveMetadataReport) (plan : DownloadPlan)
        (s : Stores)
        → value (inspect_marker x json address) ob ≡ r
        → continue_in is_current_data (inspect_data x) r still_stores ≡ (ok report, s)
        → report.plan ≡ some plan
        → Agrees plan
    unfolding continue_in Agrees is_current_data inspect_data prepare_pull inspect_marker Planless
        in_data pure
    continued-Agrees (err e) report plan s q h k = absurd (err_not_ok (ap (λ p. p.0) h))
    continued-Agrees (ok (stopped early)) report plan s q h k =
        let none_yet =
          layout-Planless x json address _ ob (stopped early) (quietly ob)
            (laid (stopped early) q) in
        absurd (none_not_some (sym none_yet ∙ ap (λ r. r.plan) (ok_inj (ap (λ p. p.0) h)) ∙ k))
    continued-Agrees (ok (readable b c)) report plan s q h k =
        let (_, bound, has, marker) =
          layout-agrees x json address ob b c _ (quietly ob) refl (laid (readable b c) q) in
        let (v, h1) = in_data-Returns c (inspect_data x (readable b c)) h in
        let (_, part_is, pull, planned) = data-Freezes x (part c) b c report plan v bound h1 k in
        (
          staged (read_marker x json address) _ (pull_of x) (read_marker-Reads x json address)
              ∙ ap (λ r. continue_in (λ m. m.is_current) (pull_of x) r still_stores)
                  (ap (λ p. p.0) marker)
              ∙ in_data-part c _ pull refl,
          subst (HasMarker x json address ob) (sym part_is) has,
          ap (λ d. in_data d (plan_download x plan.reader) still_stores) part_is
              ∙ in_data-part c _ planned refl,
        )

    -- Where nobody changes the Archive meanwhile: when `InspectMetadata` returns a report with a frozen
    -- download plan, then `PreparePull` returns the reader of that plan; the reader is bound to the
    -- store under the current prefix if the stored marker, which can be read, is of the current
    -- schema, and else to the base store; planning the download with that reader over that store
    -- returns the plan itself; and both leave the stores as they were.
    pub inspect_metadata-plan :
        (report : ArchiveMetadataReport) (plan : DownloadPlan) (s : Stores)
        → inspect_metadata x json address (record { base = quietly ob; current = quietly oc })
          ≡ (ok report, s)
        → report.plan ≡ some plan
        → (prepare_pull x json address (record { base = quietly ob; current = quietly oc })
            ≡ (ok plan.reader, record { base = quietly ob; current = quietly oc }))
          × ((m : Bytes) × (parsed : Marker) × (ob marker_object_key ≡ some m)
              × (decode_and_validate_marker_for_read json m ≡ ok parsed)
              × (text_eq parsed.schema marker_schema_current ≡ plan.reader.is_current))
          × (in_data plan.reader.is_current
                (plan_download x plan.reader)
                (record { base = quietly ob; current = quietly oc })
              ≡ (ok plan, record { base = quietly ob; current = quietly oc }))
    unfolding inspect_metadata Agrees
    inspect_metadata-plan report plan s h k =
        continued-Agrees _ report plan s refl
          (sym (
              staged (inspect_marker x json address) _ (inspect_data x)
                (inspect_marker-Reads x json address))
            ∙ h)
          k
