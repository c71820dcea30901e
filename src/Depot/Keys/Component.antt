-- ===== src/Depot/Keys/Component.antt =====
-- What `safeCatalogComponent` of internal/depot/depot.go makes of a machine identity.
use aha.Encoding.Hex
use aha.Model.Identity.Keys.{IsDigest}
use aha.Encoding.Hex.Laws.{encode-IsLowerHex, IsLowerHex}
use mathlib.Core.List.{reverse-cons, reverse-append, reverse-reverse}
use aha.Prelude.{
  zero, subst, refl, inr, ap, suc, inl, ◌∙◌, take, ◌||◌, Bool-cases, sym, All-append, ℕ, ◌≢◌, ◌++◌,
  [], reverse, arith, Bool, ◌∷◌, reverse, ◌≡◌, true, false, All,
}
use aha.Text.{text_eq_iff, IsText, text_eq, Bytes, codes}
use aha.Depot.Keys.{
  lower_from, named, is_component_byte, is_edge, dashed, trim_edge, trim_edges, cleaned,
  safe_catalog_component,
}

abbrev pub IsComponentText : Bytes → Type 0
IsComponentText = All (λ c. is_component_byte c ≡ true)

dashed-IsComponentText : (d : Bool) (s : Bytes) → IsComponentText (dashed d s)
unfolding dashed
dashed-IsComponentText d [] = tt
dashed-IsComponentText d (r ∷ s) =
    ground (arith, dashed-IsComponentText true s, dashed-IsComponentText false s)

trim_edge-IsComponentText : (s : Bytes) → IsComponentText s → IsComponentText (trim_edge s)
unfolding trim_edge
trim_edge-IsComponentText [] h = tt
trim_edge-IsComponentText (c ∷ s) (p, h) = ground (arith, trim_edge-IsComponentText s h)

reverse-IsComponentText : (s : Bytes) → IsComponentText s → IsComponentText (reverse s)
reverse-IsComponentText [] h = tt
reverse-IsComponentText (c ∷ s) (p, h) = rw reverse-cons (
    All-append (λ b. is_component_byte b ≡ true) (reverse s) (c ∷ []) (reverse-IsComponentText s h)
      (p, tt))

trim_edges-IsComponentText : (s : Bytes) → IsComponentText s → IsComponentText (trim_edges s)
unfolding trim_edges
trim_edges-IsComponentText s h =
    reverse-IsComponentText _
      (trim_edge-IsComponentText _ (reverse-IsComponentText _ (trim_edge-IsComponentText s h)))

-- The first and the last byte of a text are none of `-`, `.` and `_`.
abbrev StartsClean : Bytes → Type 0
StartsClean [] = Unit
StartsClean (c ∷ s) = is_edge c ≡ false

trim_edge-StartsClean : (s : Bytes) → StartsClean (trim_edge s)
unfolding trim_edge
trim_edge-StartsClean [] = tt
trim_edge-StartsClean (c ∷ s) = ground (arith, trim_edge-StartsClean s)

trim_edge_suffix : (s : Bytes) → (p : Bytes) × (p ++ trim_edge s ≡ s)
unfolding trim_edge
trim_edge_suffix [] = ([], refl)
trim_edge_suffix (c ∷ s) =
    let (p, e) = trim_edge_suffix s in
    elim (Bool-cases (is_edge c)) [ inl h ↦ (c ∷ p, rw h (cc e)) | inr h ↦ ([], rw h) ]

StartsClean-append : (p q : Bytes) → StartsClean (p ++ q) → StartsClean p
StartsClean-append [] q h = tt
StartsClean-append (c ∷ p) q h = h

trim_edges-StartsClean : (s : Bytes) → StartsClean (trim_edges s)
unfolding trim_edges
trim_edges-StartsClean s =
    let t = trim_edge s in
    let (p, e) = trim_edge_suffix (reverse t) in
    let e' : reverse (trim_edge (reverse t)) ++ reverse p ≡ t =
      sym (reverse-append p (trim_edge (reverse t))) ∙ ap reverse e ∙ reverse-reverse t in
    StartsClean-append (reverse (trim_edge (reverse t))) (reverse p)
      (subst StartsClean (sym e') (trim_edge-StartsClean s))

lower_component : (s : Bytes) → IsLowerHex s → IsComponentText s
lower_component [] h = tt
lower_component (c ∷ s) (p, h) = (ground arith, lower_component s h)

take-IsText : (n : ℕ) (s : Bytes) → IsText s → IsText (take n s)
take-IsText zero s h = tt
take-IsText (suc n) [] h = tt
take-IsText (suc n) (c ∷ s) (p, h) = (p, take-IsText n s h)

-- What a path component must be: not empty, of the bytes a-z, 0-9, `.`, `_` and `-`, and not begun by
-- one of the last three, so neither `.` nor `..`.
pub record IsSafe (c : Bytes) : Type 0 where
  pub bytes : IsComponentText c
  pub not_empty : c ≢ []
  pub starts_clean : StartsClean c

module _ (sha256 : Bytes → Bytes) (digest : IsDigest sha256) where
  fallback : (m : Bytes) → IsSafe (codes "machine-" ++ Hex.encode (take 8 (sha256 m)))
  fallback m =
      let t = take 8 (sha256 m) in
      record {
        bytes =
            All-append (λ c. is_component_byte c ≡ true) (codes "machine-") (Hex.encode t)
              (ground arith)
              (lower_component (Hex.encode t)
                (encode-IsLowerHex t (take-IsText 8 (sha256 m) (digest m).1)));
        not_empty = λ e. cc;
        starts_clean = refl;
      }

  cleaned-IsSafe : (m : Bytes) → text_eq (cleaned m) [] ≡ false → IsSafe (cleaned m)
  unfolding cleaned
  cleaned-IsSafe m h =
      let d = dashed false (lower_from 0 (named m)) in
      record {
        bytes =
            trim_edges-IsComponentText d (dashed-IsComponentText false (lower_from 0 (named m)));
        not_empty = λ e. cc (h, (text_eq_iff (cleaned m) []).1 e);
        starts_clean = trim_edges-StartsClean d;
      }

  -- With SHA-256 digests of 32 bytes, every machine identity, blank, hostile or not, has a safe
  -- component: it holds no `/`, is not empty, and is neither `.` nor `..`.
  pub safe_catalog_component-IsSafe : (m : Bytes) → IsSafe (safe_catalog_component sha256 m)
  unfolding safe_catalog_component
  safe_catalog_component-IsSafe m =
      let b =
        text_eq (cleaned m) []
        || text_eq (cleaned m) (codes ".")
        || text_eq (cleaned m) (codes "..") in
      elim (Bool-cases b) [
        | inl e ↦ rw e (fallback (named m))
        | inr e ↦ rw e (cleaned-IsSafe m (ground arith))
      ]
