-- ===== src/Depot/Keys.antt =====
-- internal/depot/keys_v2.go and `safeCatalogComponent` of internal/depot/depot.go: the names of the
-- objects in an Archive.
pub mod Component
pub mod Namespaces
use aha.Prelude.{
  ℕ, zero, suc, ◌+◌, Bool, true, false, ◌&&◌, ◌||◌, List, [], ◌∷◌, ◌++◌, reverse, ltb, leb, ◌==◌,
  if◌then◌else◌, take, ◌≡◌, refl,
}
use aha.Text.{Bytes, codes, text_eq}
use aha.Text.Space.{trim_space}
use aha.Encoding.Hex

-- `strings.ToLower` at the head of a text: the byte that `safeCatalogComponent` sees, and how many
-- further bytes the character has. Only U+0130 and U+212A are lowered from outside ASCII into it;
-- every other character outside ASCII, or byte that is no UTF-8, is outside the component's alphabet
-- before and after, and its bytes stand for it.
lower_rune : ℕ → Bytes → ℕ × ℕ
lower_rune a [] = (if leb 65 a && leb a 90 then a + 32 else a, 0)
lower_rune a (b ∷ []) =
    if leb 65 a && leb a 90
    then (a + 32, 0)
    else if a == 0xc4 && b == 0xb0
    then (b'i', 1)
    else (a, 0)
lower_rune a (b ∷ c ∷ s) =
    if leb 65 a && leb a 90
    then (a + 32, 0)
    else if a == 0xc4 && b == 0xb0
    then (b'i', 1)
    else if a == 0xe2 && b == 0x84 && c == 0xaa
    then (b'k', 2)
    else (a, 0)

-- The number is of the bytes that belong to the character before.
lower_from : ℕ → Bytes → Bytes
lower_from k [] = []
lower_from (suc k) (a ∷ s) = lower_from k s
lower_from zero (a ∷ s) = let (c, k) = lower_rune a s in c ∷ lower_from k s

abbrev pub is_component_byte : ℕ → Bool
is_component_byte r =
    (leb b'a' r && leb r b'z') || (leb b'0' r && leb r b'9') || r == b'.' || r == b'_' || r == b'-'

-- The loop over the characters; the Boolean is `lastDash`.
dashed : Bool → Bytes → Bytes
dashed last_dash [] = []
dashed last_dash (r ∷ s) =
    if is_component_byte r
    then r ∷ dashed false s
    else if last_dash
    then dashed true s
    else b'-' ∷ dashed true s

abbrev pub is_edge : ℕ → Bool
is_edge c = c == b'-' || c == b'.' || c == b'_'

trim_edge : Bytes → Bytes
trim_edge [] = []
trim_edge (c ∷ s) = if is_edge c then trim_edge s else c ∷ s

-- `strings.Trim(out, "-._")`
trim_edges : Bytes → Bytes
unfolding trim_edge
trim_edges s = reverse (trim_edge (reverse (trim_edge s)))

-- The machine's text, or "machine" for a blank one.
named : Bytes → Bytes
named machine = let t = trim_space machine in if text_eq t [] then codes "machine" else t

cleaned : Bytes → Bytes
unfolding lower_from lower_rune dashed trim_edges named
cleaned machine = trim_edges (dashed false (lower_from 0 (named machine)))

-- crypto/sha256 is the parameter `sha256`.
module _ (sha256 : Bytes → Bytes) where
  unfoldable pub safe_catalog_component : Bytes → Bytes
  unfolding cleaned
  safe_catalog_component machine =
      let out = cleaned machine in
      if text_eq out [] || text_eq out (codes ".") || text_eq out (codes "..")
      then codes "machine-" ++ Hex.encode (take 8 (sha256 (named machine)))
      else out

  unfoldable pub machine_prefix : Bytes → Bytes
  machine_prefix machine = codes "machines/" ++ (safe_catalog_component machine ++ codes "/")

  unfoldable pub manifest_object_key : Bytes → Bytes → Bytes
  manifest_object_key machine sha =
      machine_prefix machine ++ (codes "manifests/" ++ (sha ++ codes ".json"))

  unfoldable pub latest_pointer_key : Bytes → Bytes
  latest_pointer_key machine = machine_prefix machine ++ codes "latest"

unfoldable pub blob_object_key : Bytes → Bytes
blob_object_key k = codes "blobs/v2/" ++ (k ++ codes ".zst")

abbrev pub machines_index_key : Bytes
machines_index_key = codes "machines/index.json"

abbrev pub marker_object_key : Bytes
marker_object_key = codes "aha-depot.json"

component_example :
    safe_catalog_component (λ s. s) (codes " Work  Mac/../x. ") ≡ codes "work-mac-..-x"
unfolding safe_catalog_component trim_space text_eq
component_example = refl
