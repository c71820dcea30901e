-- ===== src/Prelude/Results.antt =====
-- Go's `(value, error)` pair as a sum, with the error type a parameter.
use mathlib.Core.Path.{◌≡◌, refl}
use mathlib.Core.Logic.{◌≢◌}
use mathlib.Core.Option.{Option, none, some}
use mathlib.Core.Bool.{Bool, true, false}

pub data Result {ℓ κ} (E : Type κ) (A : Type ℓ) : Type (ℓ ⊔ κ) where
  err : E → Result E A
  ok : A → Result E A

infixl 5 ◌>>=◌
abbrev pub ◌>>=◌ {κ ℓ ν} :
    {E : Type κ} {S : Type ℓ} {T : Type ν} → Result E S → (S → Result E T) → Result E T
◌>>=◌ (err x) next = err x
◌>>=◌ (ok s) next = next s

infixl 5 ◌>>◌
abbrev pub ◌>>◌ {κ ℓ ν} :
    {E : Type κ} {S : Type ℓ} {T : Type ν} → Result E S → Result E T → Result E T
◌>>◌ first second = first >>= λ _. second

-- `if bad { return e }`
abbrev pub fail_if {κ} : {E : Type κ} → Bool → E → Result E (Unit {0})
fail_if true e = err e
fail_if false e = ok tt

-- When a sequence of two steps returns, so did the first, and the second on its value.
pub >>=-eq-ok {κ ℓ ν} :
    {E : Type κ} {S : Type ℓ} {T : Type ν} (first : Result E S) (next : S → Result E T) {t : T}
    → first >>= next ≡ ok t
    → (s : S) × (first ≡ ok s) × (next s ≡ ok t)
>>=-eq-ok (err x) next e = cc
>>=-eq-ok (ok s) next e = (s, refl, e)

-- A guard that let the rest succeed.
pub fail_if-eq-ok {ℓ κ} :
    {E : Type κ} {A : Type ℓ} (b : Bool) (e : E) (k : Result E A) {a : A}
    → (fail_if b e >> k) ≡ ok a
    → (b ≡ false) × (k ≡ ok a)
fail_if-eq-ok true e k h = cc
fail_if-eq-ok false e k h = (refl, h)

pub >>-eq-ok {ℓ κ} :
    {E : Type κ} {A : Type ℓ} (m : Result E (Unit {0})) (k : Result E A) {a : A}
    → (m >> k) ≡ ok a
    → (m ≡ ok tt) × (k ≡ ok a)
>>-eq-ok (ok u) k h = (refl, h)
>>-eq-ok (err e) k h = cc

pub ok_inj {ℓ κ} : {E : Type κ} {A : Type ℓ} {a b : A} → ◌≡◌ {A = Result E A} (ok a) (ok b) → a ≡ b
ok_inj h = cc

pub err_not_ok {ℓ κ} :
    {E : Type κ} {A : Type ℓ} {e : E} {a : A} → ◌≢◌ {A = Result E A} (err e) (ok a)
err_not_ok h = cc

pub none_not_some {ℓ} : {A : Type ℓ} {a : A} → ◌≢◌ {A = Option A} none (some a)
none_not_some h = cc

pub some_inj {ℓ} : {A : Type ℓ} {a b : A} → ◌≡◌ {A = Option A} (some a) (some b) → a ≡ b
some_inj h = cc
