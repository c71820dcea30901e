-- ===== src/Examples/Format.antt =====
-- A small self-delimiting binary format, to stand for encoding/json at concrete inputs: a value is
-- read back from the front of a text, with what follows it.
use aha.Prelude.{
  ℕ, zero, suc, Bool, true, false, ◌≡◌, refl, List, [], ◌∷◌, ◌++◌, append_assoc, Option, none, some,
  length, take, drop, ap,
}
use aha.Prelude.Int.{ℤ, pos, negsuc}
use aha.Text.{Bytes}
use aha.Encoding.Json.{Json, newline}

pub record Format (A : Type 0) : Type 0 where
  pub put : A → Bytes
  pub get : Bytes → Option (A × Bytes)
  pub get-put : (a : A) (r : Bytes) → get (put a ++ r) ≡ some (a, r)

pub take-drop_append :
    (s r : Bytes) → (take (length s) (s ++ r) ≡ s) × (drop (length s) (s ++ r) ≡ r)
take-drop_append [] r = (refl, refl)
take-drop_append (c ∷ s) r = let (p, q) = take-drop_append s r in (cc p, q)

abbrev pub get_text : Bytes → Option (Bytes × Bytes)
get_text [] = none
get_text (n ∷ s) = some (take n s, drop n s)

pub get-put_text : (s r : Bytes) → get_text (length s ∷ s ++ r) ≡ some (s, r)
get-put_text s r = let (p, q) = take-drop_append s r in cc (p, q)

abbrev pub text_format : Format Bytes
text_format = record { put = λ s. length s ∷ s; get = get_text; get-put = get-put_text }

abbrev pub put_bool : Bool → Bytes
put_bool true = 1 ∷ []
put_bool false = 0 ∷ []

abbrev pub get_bool : Bytes → Option (Bool × Bytes)
get_bool [] = none
get_bool (zero ∷ s) = some (false, s)
get_bool (suc n ∷ s) = some (true, s)

pub get-put_bool : (b : Bool) (r : Bytes) → get_bool (put_bool b ++ r) ≡ some (b, r)
get-put_bool true r = refl
get-put_bool false r = refl

abbrev pub bool_format : Format Bool
bool_format = record { put = put_bool; get = get_bool; get-put = get-put_bool }

abbrev pub put_int : ℤ → Bytes
put_int (pos n) = 0 ∷ n ∷ []
put_int (negsuc n) = 1 ∷ n ∷ []

abbrev pub get_int : Bytes → Option (ℤ × Bytes)
get_int (zero ∷ n ∷ s) = some (pos n, s)
get_int (suc k ∷ n ∷ s) = some (negsuc n, s)
get_int _ = none

pub get-put_int : (i : ℤ) (r : Bytes) → get_int (put_int i ++ r) ≡ some (i, r)
get-put_int (pos n) r = refl
get-put_int (negsuc n) r = refl

abbrev pub int_format : Format ℤ
int_format = record { put = put_int; get = get_int; get-put = get-put_int }

module _ {A B : Type 0} (f : Format A) (g : Format B) where
  abbrev pub get_second : Option (A × Bytes) → Option ((A × B) × Bytes)
  get_second none = none
  get_second (some (a, s)) = elim (g.get s) [ none ↦ none | some (b, r) ↦ some ((a, b), r) ]

  pub get-put_both :
      (p : A × B) (r : Bytes) → get_second (f.get ((f.put p.0 ++ g.put p.1) ++ r)) ≡ some (p, r)
  get-put_both p r =
      rw
        (
          append_assoc (f.put p.0) (g.put p.1) r,
          f.get-put p.0 (g.put p.1 ++ r),
          get_second,
          g.get-put p.1 r,
        )
        refl

infixr 40 ◌&◌
abbrev pub ◌&◌ : {A B : Type 0} → Format A → Format B → Format (A × B)
f & g = record {
  put = λ p. f.put p.0 ++ g.put p.1;
  get = λ s. get_second f g (f.get s);
  get-put = get-put_both f g;
}

module _ {A : Type 0} (f : Format A) where
  abbrev pub put_each : List A → Bytes
  put_each [] = []
  put_each (a ∷ as') = f.put a ++ put_each as'

  abbrev pub cons_read : A → Option (List A × Bytes) → Option (List A × Bytes)
  cons_read a none = none
  cons_read a (some (as', r)) = some (a ∷ as', r)

  abbrev pub get_each : ℕ → Bytes → Option (List A × Bytes)
  get_each zero s = some ([], s)
  get_each (suc n) s = elim (f.get s) [ none ↦ none | some (a, r) ↦ cons_read a (get_each n r) ]

  abbrev pub get_counted : Bytes → Option (List A × Bytes)
  get_counted [] = none
  get_counted (n ∷ s) = get_each n s

  abbrev pub count_of : List A → ℕ
  count_of [] = 0
  count_of (a ∷ as') = suc (count_of as')

  pub get-put_each :
      (as' : List A) (r : Bytes) → get_each (count_of as') (put_each as' ++ r) ≡ some (as', r)
  get-put_each [] r = refl
  get-put_each (a ∷ as') r =
      rw
        (
          append_assoc (f.put a) (put_each as') r,
          f.get-put a (put_each as' ++ r),
          get-put_each as' r,
        )
        refl

abbrev pub list_format : {A : Type 0} → Format A → Format (List A)
list_format f = record {
  put = λ as'. count_of f as' ∷ put_each f as';
  get = get_counted f;
  get-put = get-put_each f;
}

module _ {A B : Type 0} (f : Format A) (to : A → B) where
  abbrev pub get_as : Option (A × Bytes) → Option (B × Bytes)
  get_as none = none
  get_as (some (a, r)) = some (to a, r)

  pub get-put_as :
      (from : B → A)
      → ((b : B) → to (from b) ≡ b)
      → (b : B) (r : Bytes) → get_as (f.get (f.put (from b) ++ r)) ≡ some (b, r)
  get-put_as from e b r = rw (f.get-put (from b) r, e b) refl

abbrev pub convert :
    {A B : Type 0} → Format A → (to : A → B) (from : B → A) → ((b : B) → to (from b) ≡ b) → Format B
convert f to from e = record {
  put = λ b. f.put (from b);
  get = λ s. get_as f to (f.get s);
  get-put = get-put_as f to from e;
}

-- A document and a line break, with nothing behind them.
abbrev pub whole : {A : Type 0} → Option (A × Bytes) → Option (A × Bool)
whole none = none
whole (some (a, c ∷ [])) = some (a, false)
whole (some (a, _)) = some (a, true)

abbrev pub json_of : {A : Type 0} → Format A → Json A
json_of f = record {
  marshal = f.put;
  decode = λ s. whole (f.get s);
  keeps = λ a. true;
  decode-marshal = λ a k. ap whole (f.get-put a newline);
}
