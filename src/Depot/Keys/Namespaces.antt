-- ===== src/Depot/Keys/Namespaces.antt =====
-- The object names of internal/depot/keys_v2.go do not collide.
use aha.Model.Identity.Keys.{IsDigest}
use aha.Prelude.{
  subst, ◌∙◌, sym, refl, length-append, drop, [], arith, append-inj, append_assoc, ap, ◌≢◌, ℕ, ◌∷◌,
  ◌++◌, ◌≡◌, length,
}
use aha.Text.{Bytes, codes, Lacks}
use aha.Depot.Keys.{
  safe_catalog_component, machine_prefix, manifest_object_key, latest_pointer_key, blob_object_key,
  machines_index_key,
}
use aha.Depot.Keys.Component.{IsComponentText, safe_catalog_component-IsSafe}

component_Lacks : (c : Bytes) → IsComponentText c → Lacks b'/' c
component_Lacks [] h = tt
component_Lacks (b ∷ c) (p, h) = (ground arith, component_Lacks c h)

-- Two texts that are cut at the first slash.
cut_at_slash :
    (c d r q : Bytes)
    → Lacks b'/' c
    → Lacks b'/' d
    → c ++ b'/' ∷ r ≡ d ++ b'/' ∷ q
    → (c ≡ d) × (r ≡ q)
cut_at_slash [] [] r q h k e = (refl, cc)
cut_at_slash [] (b ∷ d) r q h (n, k) e = absurd (n (cc))
cut_at_slash (a ∷ c) [] r q (n, h) k e = absurd (n (cc))
cut_at_slash (a ∷ c) (b ∷ d) r q (n, h) (m, k) e =
    let (p, s) = cut_at_slash c d r q h k (cc) in (cc (p), s)

pub append_right_inj : (s t u : Bytes) → s ++ u ≡ t ++ u → s ≡ t
append_right_inj s t u e =
    (append-inj s t (omega (arith, length-append s u, length-append t u, ap length e)) e).0

has_slash : (c r : Bytes) → ¬ Lacks b'/' (c ++ b'/' ∷ r)
has_slash [] r (n, h) = n refl
has_slash (b ∷ c) r (n, h) = has_slash c r h

abbrev head_of : Bytes → ℕ
head_of [] = 0
head_of (c ∷ s) = c

module _ (sha256 : Bytes → Bytes) (digest : IsDigest sha256) where
  in_machine :
      (m r : Bytes)
      → machine_prefix sha256 m ++ r
        ≡ codes "machines/" ++ (safe_catalog_component sha256 m ++ b'/' ∷ r)
  unfolding machine_prefix
  in_machine m r = simp append_assoc

  same_machine :
      (m n r q : Bytes)
      → machine_prefix sha256 m ++ r ≡ machine_prefix sha256 n ++ q
      → (safe_catalog_component sha256 m ≡ safe_catalog_component sha256 n) × (r ≡ q)
  same_machine m n r q e =
      cut_at_slash (safe_catalog_component sha256 m) (safe_catalog_component sha256 n) r q
        (component_Lacks _ (safe_catalog_component-IsSafe sha256 digest m).bytes)
        (component_Lacks _ (safe_catalog_component-IsSafe sha256 digest n).bytes)
        (ap (drop 9) (sym (in_machine m r) ∙ e ∙ in_machine n q))

  -- With SHA-256 digests of 32 bytes: two manifests have one object name only if their identities
  -- are equal and their machines have one component; two latest pointers only if the components are
  -- equal; and no manifest is named like a pointer.
  pub namespaces_apart :
      (m n s t : Bytes)
      → (manifest_object_key sha256 m s ≡ manifest_object_key sha256 n t
          → (safe_catalog_component sha256 m ≡ safe_catalog_component sha256 n) × (s ≡ t))
        × (latest_pointer_key sha256 m ≡ latest_pointer_key sha256 n
            → safe_catalog_component sha256 m ≡ safe_catalog_component sha256 n)
        × (manifest_object_key sha256 m s ≢ latest_pointer_key sha256 n)
  unfolding manifest_object_key latest_pointer_key
  namespaces_apart m n s t = (
    λ e.
        let (c, r) = same_machine m n _ _ e in
        (c, append_right_inj s t (codes ".json") (ap (drop 10) r)),
    λ e. (same_machine m n _ _ e).0,
    λ e. cc ((same_machine m n _ _ e).1),
  )

  -- No blob is named like a manifest, a pointer or the index of machines.
  pub blob_apart :
      (k m s : Bytes)
      → (blob_object_key k ≢ manifest_object_key sha256 m s)
        × (blob_object_key k ≢ latest_pointer_key sha256 m)
        × (blob_object_key k ≢ machines_index_key)
  unfolding blob_object_key manifest_object_key latest_pointer_key machine_prefix
  blob_apart k m s = (
    λ e. let p : ◌≡◌ {A = ℕ} b'b' b'm' = ap head_of e in absurd (omega arith),
    λ e. let p : ◌≡◌ {A = ℕ} b'b' b'm' = ap head_of e in absurd (omega arith),
    λ e. let p : ◌≡◌ {A = ℕ} b'b' b'm' = ap head_of e in absurd (omega arith),
  )

  not_index : (m r : Bytes) → machines_index_key ≢ machine_prefix sha256 m ++ r
  not_index m r e =
      has_slash (safe_catalog_component sha256 m) r
        (subst (Lacks b'/') (ap (drop 9) (e ∙ in_machine m r)) (omega arith))

  -- The index of machines is named like no manifest and no pointer.
  pub index_apart :
      (m s : Bytes)
      → (machines_index_key ≢ manifest_object_key sha256 m s)
        × (machines_index_key ≢ latest_pointer_key sha256 m)
  unfolding manifest_object_key latest_pointer_key
  index_apart m s = (not_index m _, not_index m _)
