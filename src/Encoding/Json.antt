-- ===== src/Encoding/Json.antt =====
-- What the program relies on of encoding/json, as an interface for one type of documents. Go's
-- encoder and decoder are not modelled: they are parameters with this law.
use aha.Prelude.{Bool, true, false, ◌≡◌, Option, some, ◌++◌, ◌∷◌, []}
use aha.Text.{Bytes}

abbrev pub newline : Bytes
newline = 10 ∷ []

-- `keeps` says that every string of the document is valid UTF-8, which the encoder writes unchanged.
-- The Boolean that decoding gives beside a document is `Decoder.More`: whether other text follows.
pub record Json (A : Type 0) : Type 0 where
  pub marshal : A → Bytes
  pub decode : Bytes → Option (A × Bool)
  pub keeps : A → Bool
  pub decode-marshal : (a : A) → keeps a ≡ true → decode (marshal a ++ newline) ≡ some (a, false)
