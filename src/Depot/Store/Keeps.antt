-- ===== src/Depot/Store/Keeps.antt =====
-- Properties of the stored objects that a Depot operation keeps at every outcome, success, error or
-- interruption, as long as the other processes keep them.
use aha.Prelude.{
  Bool, true, false, List, [], ◌∷◌, Option, none, some, Result, ok, err, All, ◌≡◌, refl,
  if◌then◌else◌, Bool-cases, inl, inr,
}
use aha.Text.{Bytes, text_eq}
use aha.Depot.Store.{
  Objects, write, Event, World, DepotError, Depot, ◌>>=◌, ◌>>◌, continue, pure, raise, attempt,
  settle, primitive, check_context, get, put_if_absent, put_conditional, local_etag, write_absent,
  write_conditional,
}
use aha.Depot.Machine.{or_raise, raise_if, absent_or}

abbrev pub Stable : (Objects → Type 0) → List Event → Type 0
Stable P es = All (λ e. (o : Objects) → P o → P (e.change o)) es

-- The property holds now, and the other processes keep it.
abbrev pub Holds : (Objects → Type 0) → World → Type 0
Holds P w = Stable P w.events × P w.objects

abbrev pub Keeps : {A : Type 0} → (Objects → Type 0) → Depot A → Type 0
Keeps P m = (w : World) → Holds P w → Holds P (m w).1

module _ (P : Objects → Type 0) where
  settle-Holds :
      (es : List Event) (w : World)
      → Stable P es
      → P w.objects
      → w.events ≡ es
      → Holds P (settle es w).1
  unfolding settle
  settle-Holds [] w s h e = (rw e tt, h)
  settle-Holds (e ∷ es) w (p, s) h q = (s, p w.objects h)

  pub pure-Keeps : {A : Type 0} (a : A) → Keeps P (pure a)
  unfolding pure
  pure-Keeps a w h = h

  pub raise-Keeps : (A : Type 0) (e : DepotError) → Keeps P (raise {A = A} e)
  unfolding raise
  raise-Keeps A e w h = h

  continue-Keeps :
      {A B : Type 0} (r : Result DepotError A) (f : A → Depot B)
      → ((a : A) → Keeps P (f a))
      → Keeps P (continue r f)
  continue-Keeps (ok a) f k w h = k a w h
  continue-Keeps (err e) f k w h = h

  pub >>=-Keeps :
      {A B : Type 0} (m : Depot A) (f : A → Depot B)
      → Keeps P m
      → ((a : A) → Keeps P (f a))
      → Keeps P (m >>= f)
  unfolding ◌>>=◌
  >>=-Keeps m f k l w h = continue-Keeps (m w).0 f l (m w).1 (k w h)

  pub attempt-Keeps : {A : Type 0} (m : Depot A) → Keeps P m → Keeps P (attempt m)
  unfolding attempt
  attempt-Keeps m k w h = k w h

  -- A primitive keeps what its function keeps.
  pub primitive-Keeps :
      {A : Type 0} (f : Objects → Result DepotError A × Objects)
      → ((o : Objects) → P o → P (f o).1)
      → Keeps P (primitive f)
  unfolding primitive
  primitive-Keeps f k w (s, h) =
      let g = settle-Holds w.events w s h refl in
      elim (Bool-cases (settle w.events w).0) [ inl e ↦ rw e g | inr e ↦ rw e (g.0, k _ g.1) ]

  pub check_context-Keeps : Keeps P check_context
  unfolding check_context
  check_context-Keeps = primitive-Keeps _ (λ o h. h)

  pub get-Keeps : (sha256 : Bytes → Bytes) (key : Bytes) → Keeps P (get sha256 key)
  unfolding get
  get-Keeps sha256 key = primitive-Keeps _ (λ o h. h)

  absent_write :
      (o : Objects) (key b : Bytes) (q : Option Bytes)
      → o key ≡ q
      → P o
      → (o key ≡ none → P (write o key b))
      → P (write_absent o key b).1
  unfolding write_absent
  absent_write o key b none e h k = rw (e, write_absent) (k e)
  absent_write o key b (some c) e h k = rw (e, write_absent) h

  pub put_if_absent-Keeps :
      (key b : Bytes)
      → ((o : Objects) → o key ≡ none → P o → P (write o key b))
      → Keeps P (put_if_absent key b)
  unfolding put_if_absent
  put_if_absent-Keeps key b k =
      primitive-Keeps _ (λ o h. absent_write o key b (o key) refl h (λ e. k o e h))

  -- An error of a pure function ends the operation.
  pub or_raise-Keeps :
      {E A B : Type 0} (r : Result E A) (e : DepotError) (f : A → Depot B)
      → ((a : A) → r ≡ ok a → Keeps P (f a))
      → Keeps P (or_raise r e >>= f)
  unfolding ◌>>=◌ pure raise
  or_raise-Keeps (ok a) e f k = k a refl
  or_raise-Keeps (err x) e f k = λ w h. h

  pub raise_if-Keeps :
      {B : Type 0} (b : Bool) (e : DepotError) (m : Depot B)
      → (b ≡ false → Keeps P m)
      → Keeps P (raise_if b e >> m)
  unfolding ◌>>=◌ pure raise
  raise_if-Keeps true e m k = λ w h. h
  raise_if-Keeps false e m k = k refl

  pub absent_or-Keeps : {A : Type 0} (r : Result DepotError A) → Keeps P (absent_or r)
  unfolding pure raise
  absent_or-Keeps (ok a) = λ w h. h
  absent_or-Keeps (err DepotError.object_not_exist) = λ w h. h
  absent_or-Keeps (err e) = λ w h. h

  conditional_write :
      (sha256 : Bytes → Bytes) (o : Objects) (key b etag : Bytes) (q : Option Bytes)
      → o key ≡ q
      → P o
      → P (write o key b)
      → P (write_conditional sha256 o key b etag).1
  unfolding write_conditional
  conditional_write sha256 o key b etag none e h k = elim (Bool-cases (text_eq etag [])) [
    | inl q ↦ rw (e, write_conditional, q) k
    | inr q ↦ rw (e, write_conditional, q) h
  ]
  conditional_write sha256 o key b etag (some c) e h k = elim (Bool-cases (text_eq etag [])) [
    | inl q ↦ rw (e, write_conditional, q) h
    | inr q ↦ elim (Bool-cases (text_eq (local_etag sha256 c) etag)) [
      | inl r ↦ rw (e, write_conditional, q, r) k
      | inr r ↦ rw (e, write_conditional, q, r) h
    ]
  ]

  pub put_conditional-Keeps :
      (sha256 : Bytes → Bytes) (key b etag : Bytes)
      → ((o : Objects) → P o → P (write o key b))
      → Keeps P (put_conditional sha256 key b etag)
  unfolding put_conditional
  put_conditional-Keeps sha256 key b etag k =
      primitive-Keeps _ (λ o h. conditional_write sha256 o key b etag (o key) refl h (k o h))

  -- A read whose absence is a value.
  pub get_or_absent-Keeps :
      {B : Type 0} (sha256 : Bytes → Bytes) (key : Bytes) (f : Option (Bytes × Bytes) → Depot B)
      → ((q : Option (Bytes × Bytes)) → Keeps P (f q))
      → Keeps P (attempt (get sha256 key) >>= λ r. absent_or r >>= f)
  get_or_absent-Keeps sha256 key f k =
      >>=-Keeps _ _ (attempt-Keeps _ (get-Keeps sha256 key))
        (λ r. >>=-Keeps _ _ (absent_or-Keeps r) k)

  pub option-Keeps :
      {A B : Type 0} (q : Option A) (m : Depot B) (f : A → Depot B)
      → Keeps P m
      → ((a : A) → Keeps P (f a))
      → Keeps P (elim q [ none ↦ m | some a ↦ f a ])
  option-Keeps none m f k l = k
  option-Keeps (some a) m f k l = l a

  pub if-Keeps :
      {A : Type 0} (b : Bool) (m n : Depot A) → Keeps P m → Keeps P n → Keeps P (if b then m else n)
  if-Keeps true m n k l = k
  if-Keeps false m n k l = l

  pub or_raise_last-Keeps :
      {E A : Type 0} (r : Result E A) (e : DepotError) → Keeps P (or_raise r e)
  unfolding pure raise
  or_raise_last-Keeps (ok a) e = λ w h. h
  or_raise_last-Keeps (err x) e = λ w h. h

  created :
      (sha256 : Bytes → Bytes) (o : Objects) (key b : Bytes) (q : Option Bytes)
      → o key ≡ q
      → P o
      → (o key ≡ none → P (write o key b))
      → P (write_conditional sha256 o key b []).1
  unfolding write_conditional text_eq
  created sha256 o key b none e h k = rw (e, write_conditional) (k e)
  created sha256 o key b (some c) e h k = rw (e, write_conditional) h

  -- A conditional write under the empty ETag only creates.
  pub create-Keeps :
      (sha256 : Bytes → Bytes) (key b : Bytes)
      → ((o : Objects) → o key ≡ none → P o → P (write o key b))
      → Keeps P (put_conditional sha256 key b [])
  unfolding put_conditional
  create-Keeps sha256 key b k =
      primitive-Keeps _ (λ o h. created sha256 o key b (o key) refl h (λ e. k o e h))
