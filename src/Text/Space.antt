-- ===== src/Text/Space.antt =====
-- `strings.TrimSpace`, with Unicode's white space in its UTF-8 encoding.
pub mod Fields
pub mod Laws
pub mod Printable
use aha.Prelude.{
  ℕ, zero, suc, Bool, true, List, ◌&&◌, ◌||◌, ◌≡◌, refl, [], ◌∷◌, ◌++◌, reverse, ◌==◌, leb,
  if◌then◌else◌, length, drop,
}
use aha.Text.Equality.{Bytes, codes, text_eq}

abbrev pub is_ascii_space : ℕ → Bool
is_ascii_space c = c == 32 || (leb 9 c && leb c 13)

abbrev is_space2 : ℕ → ℕ → Bool
is_space2 a b = a == 0xc2 && (b == 0x85 || b == 0xa0)

abbrev is_space3 : ℕ → ℕ → ℕ → Bool
is_space3 a b c =
    (a == 0xe1 && b == 0x9a && c == 0x80)
    || (a == 0xe2 && b == 0x80 && (leb 0x80 c && leb c 0x8a || c == 0xa8 || c == 0xa9 || c == 0xaf))
    || (a == 0xe2 && b == 0x81 && c == 0x9f)
    || (a == 0xe3 && b == 0x80 && c == 0x80)

-- The width in bytes of the white space that a text begins with, or 0.
unfoldable pub space_width : Bytes → ℕ
space_width [] = 0
space_width (a ∷ []) = if is_ascii_space a then 1 else 0
space_width (a ∷ b ∷ []) = if is_ascii_space a then 1 else if is_space2 a b then 2 else 0
space_width (a ∷ b ∷ c ∷ s) =
    if is_ascii_space a then 1 else if is_space2 a b then 2 else if is_space3 a b c then 3 else 0

-- The same of the white space that a reversed text begins with.
last_space_width : Bytes → ℕ
last_space_width [] = 0
last_space_width (a ∷ []) = if is_ascii_space a then 1 else 0
last_space_width (b ∷ a ∷ []) = if is_ascii_space b then 1 else if is_space2 a b then 2 else 0
last_space_width (c ∷ b ∷ a ∷ s) =
    if is_ascii_space c then 1 else if is_space2 b c then 2 else if is_space3 a b c then 3 else 0

-- Drops white space from the front, with a bound on the rounds.
skip : (Bytes → ℕ) → ℕ → Bytes → Bytes
skip width zero s = s
skip width (suc n) s =
    let rest = skip width n (drop (width s) s) in if width s == 0 then s else rest

-- Each round takes a byte at least, so `length s` rounds are enough.
unfoldable pub trim_space : Bytes → Bytes
unfolding skip space_width last_space_width
trim_space s =
    let t = skip space_width (length s) s in reverse (skip last_space_width (length t) (reverse t))

-- `strings.TrimSpace(s) == ""`
unfoldable pub is_blank : Bytes → Bool
unfolding trim_space text_eq
is_blank s = text_eq (trim_space s) []

blank_of_spaces : is_blank (codes " \t" ++ 0xc2 ∷ 0xa0 ∷ 0xe2 ∷ 0x80 ∷ 0xa9 ∷ []) ≡ true
unfolding is_blank
blank_of_spaces = refl

trim_example : trim_space (codes "  a b\n") ≡ codes "a b"
unfolding trim_space
trim_example = refl

abbrev emit : Bytes → List Bytes
emit [] = []
emit (c ∷ word) = (c ∷ word) ∷ []

-- The rest of `strings.Fields`: the bytes of white space that are left to skip, and the word so far.
fields_from : ℕ → Bytes → Bytes → List Bytes
unfolding space_width
fields_from k word [] = emit word
fields_from (suc k) word (c ∷ s) = fields_from k word s
fields_from zero word (c ∷ s) = elim (space_width (c ∷ s)) [
  | zero ↦ fields_from zero (word ++ c ∷ []) s
  | suc w ↦ emit word ++ fields_from w [] s
]

unfoldable pub fields : Bytes → List Bytes
unfolding fields_from
fields s = fields_from 0 [] s

fields_of_words :
    fields (codes " go  test" ++ 0xc2 ∷ 0xa0 ∷ codes "./...\n")
    ≡ codes "go" ∷ codes "test" ∷ codes "./..." ∷ []
unfolding fields
fields_of_words = refl
