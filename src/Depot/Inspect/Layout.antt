-- ===== src/Depot/Inspect/Layout.antt =====
-- The layout and the marker that an inspection reads, against those that a pull reads.
use aha.Prelude.{
  none_not_some, some_inj, Option-cases, Bool, true, Option, none, some, Result, ok, err, ◌≡◌, refl,
  sym, ap, subst, ◌∙◌, arith, ok_inj, err_not_ok, Bool-cases, inl, inr, >>=-eq-ok,
}
use aha.Text.{Bytes, text_eq}
use aha.Encoding.Json.{Json}
use aha.Model.Binding.{ArchiveBinding, is_bound, new_archive_binding}
use aha.Depot.Keys.{marker_object_key}
use aha.Depot.Store.{Objects, World, Depot, DepotError, ◌>>=◌, pure, raise, attempt, get}
use aha.Depot.Store.Quiet.{quietly, get-absent, get-present}
use aha.Depot.Store.Steps.{Returns, starts_at, ends_at, >>=-Returns, pure-Returns, bind_known}
use aha.Depot.Store.Reads.{
  value, Reads, if-Reads, pure-Reads, raise-Reads, >>=-Reads, attempt-Reads, get_or_absent-Reads,
  option-Reads, absent_or-Reads, get-Reads, or_raise-Reads, read_bind, read_Returns,
}
use aha.Depot.Codec.{Externals}
use aha.Depot.Machine.{absent_or, or_raise}
use aha.Depot.Init.{reject_legacy_archive}
use aha.Depot.Marker.{
  marker_schema_current, Marker, MarkerError, archive_binding_from_marker, bound,
  decode_and_validate_marker_for_read,
}
use aha.Depot.Prepare.{Readable, required_marker, read_marker, needs_newer, schema_is_current}
use aha.Depot.Inspect.{
  Inspection, stopped, readable, is_legacy_error, inspect_found, inspect_layout, inspect_marker,
  after_binding,
}

new_archive_binding-is_bound :
    (i a : Bytes) (b : ArchiveBinding) → new_archive_binding i a ≡ some b → is_bound b ≡ true
unfolding new_archive_binding is_bound
new_archive_binding-is_bound i a b h = ground arith

module _ (x : Externals) (json : Json Marker) (address : Bytes) where
  made-is_bound :
      (i : Bytes) (q : Option ArchiveBinding) (b : ArchiveBinding)
      → new_archive_binding i address ≡ q
      → bound json q ≡ ok b
      → is_bound b ≡ true
  unfolding bound
  made-is_bound i none b e k = absurd (err_not_ok k)
  made-is_bound i (some b') b e k =
      new_archive_binding-is_bound i address b (e ∙ ap some (ok_inj k))

  binding-is_bound :
      (m : Bytes) (b : ArchiveBinding)
      → archive_binding_from_marker json m address ≡ ok b
      → is_bound b ≡ true
  unfolding archive_binding_from_marker
  binding-is_bound m b h =
      let (parsed, _, h1) = >>=-eq-ok (decode_and_validate_marker_for_read json m) _ h in
      made-is_bound parsed.depot_id (new_archive_binding parsed.depot_id address) b refl h1

  pub reject_legacy-Reads : Reads (reject_legacy_archive x json)
  unfolding reject_legacy_archive
  reject_legacy-Reads =
      get_or_absent-Reads x.sha256 _ _
        (λ q. option-Reads q _ _ (pure-Reads tt) (λ _. raise-Reads _ _))

  -- A marker that lets the inspection go on.
  found-agrees :
      (q : Option (Bytes × Bytes)) (b : ArchiveBinding) (c : Bool)
      → inspect_found x json address q ≡ readable b c
      → (m : Bytes) × (etag : Bytes) × (q ≡ some (m, etag))
        × (archive_binding_from_marker json m address ≡ ok b)
        × (schema_is_current (decode_and_validate_marker_for_read json m) ≡ c)
  unfolding inspect_found after_binding
  found-agrees none b c h = absurd (cc h)
  found-agrees (some (m, etag)) b c h = let (p, q) = bound-agrees _ _ h in (m, etag, refl, p, q)
    where
      bound-agrees :
          (cur : Bool) (r : Result MarkerError ArchiveBinding)
          → after_binding cur r ≡ readable b c
          → (r ≡ ok b) × (cur ≡ c)
      bound-agrees cur (ok b') k = (cc k, cc k)
      bound-agrees cur (err e) k = elim (Bool-cases (needs_newer e)) [
        | inl g ↦ absurd (cc (rw g at k))
        | inr g ↦ absurd (cc (rw g at k))
      ]

  abbrev marker_get : Depot (Bytes × Bytes)
  marker_get = get x.sha256 marker_object_key

  marker_get-Reads : Reads marker_get
  marker_get-Reads = get-Reads x.sha256 marker_object_key

  absent_or-some :
      (r : Result DepotError (Bytes × Bytes)) (p : Bytes × Bytes) (u : World) {v : World}
      → Returns (absent_or r) u (some p) v
      → r ≡ ok p
  unfolding pure raise
  absent_or-some (ok a) p u h = ap ok (some_inj (ok_inj (ap (λ q. q.0) h)))
  absent_or-some (err DepotError.object_not_exist) p u h =
      absurd (none_not_some (ok_inj (ap (λ q. q.0) h)))
  absent_or-some (err e) p u h = absurd (err_not_ok (ap (λ q. q.0) h))

  marker_found :
      (o : Objects) (r : Result DepotError (Bytes × Bytes)) (u : World) (m etag : Bytes)
      → Returns (attempt marker_get) (quietly o) r u
      → r ≡ ok (m, etag)
      → o marker_object_key ≡ some m
  unfolding attempt
  marker_found o r u m etag h k =
      let got : value marker_get o ≡ ok (m, etag) = ok_inj (ap (λ p. p.0) h) ∙ k in
      elim (Option-cases (o marker_object_key)) [
        | inl e ↦
            absurd
              (err_not_ok (sym (ap (λ p. p.0) (get-absent x.sha256 o marker_object_key e)) ∙ got))
        | inr (b, e) ↦
            e
            ∙ ap (λ (p : Bytes × Bytes). some p.0)
                (ok_inj (sym (ap (λ p. p.0) (get-present x.sha256 o marker_object_key b e)) ∙ got))
      ]

  -- The stored marker is one that may be read, and whether its schema is the current one.
  abbrev pub HasMarker : Objects → Bool → Type 0
  HasMarker o c =
      (m : Bytes) × (parsed : Marker) × (o marker_object_key ≡ some m)
      × (decode_and_validate_marker_for_read json m ≡ ok parsed)
      × (text_eq parsed.schema marker_schema_current ≡ c)

  marked :
      (o : Objects) (b : ArchiveBinding) (c : Bool) (m : Bytes)
      → o marker_object_key ≡ some m
      → archive_binding_from_marker json m address ≡ ok b
      → schema_is_current (decode_and_validate_marker_for_read json m) ≡ c
      → HasMarker o c
  unfolding archive_binding_from_marker schema_is_current
  marked o b c m e h k =
      let (parsed, d, _) = >>=-eq-ok (decode_and_validate_marker_for_read json m) _ h in
      (m, parsed, e, d, sym (ap schema_is_current d) ∙ k)

  module _ (o : Objects) (b : ArchiveBinding) (c : Bool) where
    required-Returns :
        (r : Result DepotError (Bytes × Bytes)) (found : Option (Bytes × Bytes)) (m etag : Bytes)
        → Returns (attempt marker_get) (quietly o) r (quietly o)
        → Returns (absent_or r) (quietly o) found (quietly o)
        → found ≡ some (m, etag)
        → Returns (required_marker x json) (quietly o) m (quietly o)
    unfolding required_marker pure
    required-Returns r found m etag h k e =
        bind_known _ _ (quietly o) h ∙ bind_known _ _ (quietly o) k ∙ rw e refl

    marker-Returns :
        (m : Bytes)
        → archive_binding_from_marker json m address ≡ ok b
        → schema_is_current (decode_and_validate_marker_for_read json m) ≡ c
        → Returns {A = Readable}
            (or_raise (archive_binding_from_marker json m address) DepotError.invalid_marker
              >>= λ b'. pure (record {
                binding = b';
                is_current = schema_is_current (decode_and_validate_marker_for_read json m);
              }))
            (quietly o)
            (record { binding = b; is_current = c })
            (quietly o)
    unfolding pure ◌>>=◌
    marker-Returns m h k = rw (h, k) refl

    pub layout-agrees :
        (r : Result DepotError (Unit {0})) (v : World)
        → value (reject_legacy_archive x json) o ≡ r
        → Returns (inspect_layout x json address r) (quietly o) (readable b c) v
        → (v ≡ quietly o)
          × (is_bound b ≡ true)
          × HasMarker o c
          × Returns
              (read_marker x json address)
              (quietly o)
              (record { binding = b; is_current = c })
              (quietly o)
    unfolding inspect_layout read_marker pure raise
    layout-agrees (err e) v q h = elim (Bool-cases (is_legacy_error e)) [
      | inl g ↦ absurd (cc (rw g at h))
      | inr g ↦ absurd (cc (rw g at h))
    ]
    layout-agrees (ok _) v q h =
        let (r, u, h1, h2) = >>=-Returns _ _ (quietly o) h in
        let (found, u1, h3, h4) = >>=-Returns _ _ u h2 in
        let (e, last) = pure-Returns _ u1 h4 in
        let (m, etag, fs, fb, fc) = found-agrees found b c e in
        let (_, e1) = read_Returns (attempt marker_get) o (attempt-Reads _ marker_get-Reads) h1 in
        let h3' = starts_at (absent_or r) e1 h3 in
        let (_, e2) = read_Returns (absent_or r) o (absent_or-Reads r) h3' in
        let req =
          required-Returns r found m etag (ends_at (attempt marker_get) (quietly o) e1 h1)
            (ends_at (absent_or r) (quietly o) e2 h3') fs in
        (
          sym last ∙ e2,
          binding-is_bound m b fb,
          marked o b c m
              (marker_found o r u m etag h1
                (absent_or-some r (m, etag) u (subst (λ q. Returns (absent_or r) u q u1) fs h3)))
              fb fc,
          read_bind (reject_legacy_archive x json) _ o reject_legacy-Reads q
              ∙ bind_known (required_marker x json) _ (quietly o) req
              ∙ marker-Returns m fb fc,
        )

  layout-Reads : (r : Result DepotError (Unit {0})) → Reads (inspect_layout x json address r)
  unfolding inspect_layout
  layout-Reads (err e) = if-Reads (is_legacy_error e) _ _ (pure-Reads _) (raise-Reads _ e)
  layout-Reads (ok _) =
      >>=-Reads _ _ (attempt-Reads _ marker_get-Reads)
        (λ r. >>=-Reads _ _ (absent_or-Reads r) (λ q. pure-Reads _))

  pub inspect_marker-Reads : Reads (inspect_marker x json address)
  unfolding inspect_marker
  inspect_marker-Reads = >>=-Reads _ _ (attempt-Reads _ reject_legacy-Reads) layout-Reads

  required_marker-Reads : Reads (required_marker x json)
  unfolding required_marker
  required_marker-Reads =
      get_or_absent-Reads x.sha256 _ _
        (λ q. option-Reads q _ _ (raise-Reads _ _) (λ p. pure-Reads _))

  pub read_marker-Reads : Reads (read_marker x json address)
  unfolding read_marker
  read_marker-Reads = >>=-Reads _ _ reject_legacy-Reads (λ _.
      >>=-Reads _ _ required_marker-Reads
        (λ b. >>=-Reads _ _ (or_raise-Reads _ _) (λ p. pure-Reads _)))

  -- An inspection that stopped at the marker has no plan.
  unfoldable pub Planless : Inspection → Type 0
  Planless (stopped report) = report.plan ≡ none
  Planless (readable _ _) = Unit {0}

  bound-Planless : (c : Bool) (r : Result MarkerError ArchiveBinding) → Planless (after_binding c r)
  unfolding after_binding Planless
  bound-Planless c (ok b) = tt
  bound-Planless c (err e) = elim (Bool-cases (needs_newer e)) [
    | inl g ↦ rw g refl
    | inr g ↦ rw g refl
  ]

  found-Planless : (q : Option (Bytes × Bytes)) → Planless (inspect_found x json address q)
  unfolding inspect_found Planless
  found-Planless none = refl
  found-Planless (some (m, etag)) =
      bound-Planless (schema_is_current (decode_and_validate_marker_for_read json m))
        (archive_binding_from_marker json m address)

  pub layout-Planless :
      (r : Result DepotError (Unit {0})) (o : Objects) (i : Inspection) (v : World)
      → Returns (inspect_layout x json address r) (quietly o) i v
      → Planless i
  unfolding inspect_layout pure raise Planless
  layout-Planless (err e) o i v h = elim (Bool-cases (is_legacy_error e)) [
    | inl g ↦ subst Planless (ok_inj (ap (λ p. p.0) (rw g at h))) refl
    | inr g ↦ absurd (err_not_ok (ap (λ p. p.0) (rw g at h)))
  ]
  layout-Planless (ok _) o i v h =
      let (r, u, h1, h2) = >>=-Returns _ _ (quietly o) h in
      let (found, u1, h3, h4) = >>=-Returns _ _ u h2 in
      subst Planless (pure-Returns _ u1 h4).0 (found-Planless found)
