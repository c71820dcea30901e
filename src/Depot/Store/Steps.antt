-- ===== src/Depot/Store/Steps.antt =====
-- A sequence of depot operations returns when its first step does, and its second on that value.
use aha.Prelude.{sym, ◌∙◌, Bool, true, false, Result, ok, err, ◌≡◌, refl, ap}
use aha.Depot.Store.{lift, World, Depot, DepotError, continue, ◌>>=◌, ◌>>◌, pure, raise, attempt}
use aha.Depot.Machine.{or_raise, raise_if}

-- What a run of an operation comes to.
abbrev pub Returns : {A : Type 0} → Depot A → World → A → World → Type 0
Returns m w a v = m w ≡ (ok a, v)

-- The rest of a sequence after a step that is known.
pub bind_known :
    {A B : Type 0} (m : Depot A) (f : A → Depot B) (w : World) {r : Result DepotError A} {v : World}
    → m w ≡ (r, v)
    → (m >>= f) w ≡ continue r f v
unfolding ◌>>=◌
bind_known m f w e = ap (λ p. continue p.0 f p.1) e

pub attempt_known :
    {A : Type 0} (m : Depot A) (w : World) {r : Result DepotError A} {v : World}
    → m w ≡ (r, v)
    → attempt m w ≡ (ok r, v)
unfolding attempt
attempt_known m w e = ap (λ p. (ok p.0, p.1)) e

continue-Returns :
    {A B : Type 0} (r : Result DepotError A) (f : A → Depot B) (u : World) {b : B} {v : World}
    → continue r f u ≡ (ok b, v)
    → (a : A) × (r ≡ ok a) × Returns (f a) u b v
continue-Returns (ok a) f u h = (a, refl, h)
continue-Returns (err e) f u h = absurd (cc h)

pub >>=-Returns :
    {A B : Type 0} (m : Depot A) (f : A → Depot B) (w : World) {b : B} {v : World}
    → Returns (m >>= f) w b v
    → (a : A) × (u : World) × Returns m w a u × Returns (f a) u b v
unfolding ◌>>=◌
>>=-Returns m f w h =
    let (a, e, k) = continue-Returns (m w).0 f (m w).1 h in
    (a, (m w).1, ap (λ r. (r, (m w).1)) e, k)

pub pure-Returns :
    {A : Type 0} (a : A) (w : World) {b : A} {v : World}
    → Returns (pure a) w b v
    → (a ≡ b) × (w ≡ v)
unfolding pure
pure-Returns a w h = (cc, cc)

pub raise_if-Returns :
    {A : Type 0} (b : Bool) (e : DepotError) (m : Depot A) (w : World) {a : A} {v : World}
    → Returns (raise_if b e >> m) w a v
    → (b ≡ false) × Returns m w a v
unfolding ◌>>=◌ raise pure
raise_if-Returns true e m w h = absurd (cc h)
raise_if-Returns false e m w h = (refl, h)

pub or_raise-Returns :
    {E A B : Type 0} (r : Result E A) (e : DepotError) (f : A → Depot B) (w : World) {b : B}
    {v : World}
    → Returns (or_raise r e >>= f) w b v
    → (a : A) × (r ≡ ok a) × Returns (f a) w b v
unfolding ◌>>=◌ raise pure
or_raise-Returns (ok a) e f w h = (a, refl, h)
or_raise-Returns (err x) e f w h = absurd (cc h)

-- Two sequences with the same first step agree where their second steps do.
pub >>=-follows :
    {A B C : Type 0} (m : Depot A) (f : A → Depot B) (g : A → Depot C) (w : World) {b : B} {c : C}
    {v : World}
    → ((a : A) (u : World) → Returns m w a u → Returns (f a) u b v → Returns (g a) u c v)
    → Returns (m >>= f) w b v
    → Returns (m >>= g) w c v
>>=-follows m f g w k h = let (a, u, e, h') = >>=-Returns m f w h in bind_known m g w e ∙ k a u e h'

pub lift-still :
    {A : Type 0} (r : Result DepotError A) (w : World) {a : A} {v : World}
    → Returns (lift r) w a v
    → w ≡ v
unfolding lift
lift-still r w h = cc h

pub ends_at :
    {A : Type 0} (m : Depot A) (w : World) {a : A} {u v : World}
    → u ≡ v
    → Returns m w a u
    → Returns m w a v
ends_at m w {a} q e = e ∙ ap (λ z. (ok a, z)) q

pub starts_at :
    {A : Type 0} (m : Depot A) {w u : World} {a : A} {v : World}
    → u ≡ w
    → Returns m u a v
    → Returns m w a v
starts_at m q e = ap m (sym q) ∙ e

-- A view of a returned value.
pub pure_view :
    {A B : Type 0} (g : A → B) (a : A) (w : World) {b : A} {v : World}
    → Returns (pure a) w b v
    → Returns (pure (g a)) w (g b) v
unfolding pure
pure_view {A} {B} g a w h = ap (λ r. (viewed r.0, r.1)) h
  where
    viewed : Result DepotError A → Result DepotError B
    viewed (ok e) = ok (g e)
    viewed (err e) = err e

pub raise_if_passes :
    {A : Type 0} (b : Bool) (e : DepotError) (m : Depot A) (w : World)
    → b ≡ false
    → (raise_if b e >> m) w ≡ m w
unfolding ◌>>=◌ raise pure
raise_if_passes b e m w h = rw h refl

pub or_raise_passes :
    {E A B : Type 0} (r : Result E A) (e : DepotError) (f : A → Depot B) (w : World) {a : A}
    → r ≡ ok a
    → (or_raise r e >>= f) w ≡ f a w
unfolding ◌>>=◌ raise pure
or_raise_passes r e f w h = rw h refl
