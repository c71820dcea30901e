-- ===== src/Model/Snapshot/Validate/Sound.antt =====
-- What a manifest that `validateSnapshotManifest` accepts looks like.
use aha.Prelude.{
  arith, sym, ◌∷◌, subst, false, >>-eq-ok, ◌==◌, length, [], List, true, ◌≡◌, refl, ok,
}
use aha.Text.{text_eq, text_eq_iff}
use aha.Model.Snapshot.Files.{SnapshotManifest}
use aha.Model.Snapshot.Validate.{schema_v2, schema_v3, validate_schema, validate_snapshot_manifest}

length_zero : {A : Type 0} (xs : List A) → (length xs == 0) ≡ true → xs ≡ []
length_zero [] h = refl
length_zero (x ∷ xs) h = ground arith

schema_no_features :
    (m : SnapshotManifest)
    → validate_schema m ≡ ok tt
    → text_eq m.schema schema_v2 ≡ true
    → (m.required_features ≡ []) × (m.optional_features ≡ [])
unfolding validate_schema
schema_no_features m h e =
    let w : text_eq m.schema schema_v3 ≡ false =
      subst (λ s. text_eq s schema_v3 ≡ false) (sym ((text_eq_iff m.schema schema_v2).0 e))
        (unfold text_eq in refl) in
    (length_zero m.required_features (ground arith), length_zero m.optional_features (ground arith))

-- An accepted manifest of schema v2 declares no features.
pub v2_no_features :
    (m : SnapshotManifest)
    → validate_snapshot_manifest m ≡ ok tt
    → text_eq m.schema schema_v2 ≡ true
    → (m.required_features ≡ []) × (m.optional_features ≡ [])
unfolding validate_snapshot_manifest
v2_no_features m h e = schema_no_features m (>>-eq-ok (validate_schema m) _ h).0 e
