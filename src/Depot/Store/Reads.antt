-- ===== src/Depot/Store/Reads.antt =====
-- Operations that only read leave a quiet world as it is, so that what they return there is a function
-- of the objects.
use aha.Prelude.{
  if◌then◌else◌, Bool, true, false, [], Option, none, some, Result, ok, err, ◌≡◌, refl, sym, ap,
  ◌∙◌,
}
use aha.Text.{Bytes}
use aha.Model.Snapshot.Codec.{ManifestSha256}
use aha.Depot.Store.{
  World, Objects, Depot, DepotError, continue, ◌>>=◌, pure, raise, attempt, primitive, get,
  get_stream, exists, check_context, settle,
}
use aha.Depot.Store.Quiet.{quietly}
use aha.Depot.Store.Steps.{bind_known, attempt_known}
use aha.Depot.Codec.{Externals}
use aha.Depot.Machine.{
  or_raise, raise_if, absent_or, machines, latest, prepared_manifest, manifest, parent,
}
use aha.Depot.Init.{open_blob, has_blob}

abbrev pub value : {A : Type 0} → Depot A → Objects → Result DepotError A
value m o = (m (quietly o)).0

abbrev pub Reads : {A : Type 0} → Depot A → Type 0
Reads m = (o : Objects) → m (quietly o) ≡ (value m o, quietly o)

pub pure-Reads : {A : Type 0} (a : A) → Reads (pure a)
unfolding pure
pure-Reads a o = refl

pub raise-Reads : (A : Type 0) (e : DepotError) → Reads (raise {A = A} e)
unfolding raise
raise-Reads A e o = refl

continue-Reads :
    {A B : Type 0} (r : Result DepotError A) (f : A → Depot B)
    → ((a : A) → Reads (f a))
    → Reads (continue r f)
continue-Reads (ok a) f k o = k a o
continue-Reads (err e) f k o = refl

pub >>=-Reads :
    {A B : Type 0} (m : Depot A) (f : A → Depot B)
    → Reads m
    → ((a : A) → Reads (f a))
    → Reads (m >>= f)
>>=-Reads m f r k o =
    let e = bind_known m f (quietly o) (r o) in
    let g = continue-Reads (value m o) f k o in e ∙ g ∙ ap (λ p. (p.0, quietly o)) (sym e)

pub attempt-Reads : {A : Type 0} (m : Depot A) → Reads m → Reads (attempt m)
unfolding attempt
attempt-Reads m r o = ap (λ p. (ok (value m o), p.1)) (r o)

read-Reads : {A : Type 0} (f : Objects → Result DepotError A) → Reads (primitive (λ o. (f o, o)))
unfolding primitive settle
read-Reads f o = refl

pub check_context-Reads : Reads check_context
unfolding check_context
check_context-Reads = read-Reads (λ o. ok tt)

pub get-Reads : (sha256 : Bytes → Bytes) (key : Bytes) → Reads (get sha256 key)
unfolding get
get-Reads sha256 key = read-Reads _

pub get_stream-Reads : (key : Bytes) → Reads (get_stream key)
unfolding get_stream
get_stream-Reads key = read-Reads _

pub exists-Reads : (key : Bytes) → Reads (exists key)
unfolding exists
exists-Reads key = read-Reads _

pub or_raise-Reads : {E A : Type 0} (r : Result E A) (e : DepotError) → Reads (or_raise r e)
or_raise-Reads (ok a) e = pure-Reads a
or_raise-Reads (err x) e = raise-Reads _ e

pub raise_if-Reads : (b : Bool) (e : DepotError) → Reads (raise_if b e)
raise_if-Reads true e = raise-Reads _ e
raise_if-Reads false e = pure-Reads tt

pub absent_or-Reads : {A : Type 0} (r : Result DepotError A) → Reads (absent_or r)
unfolding pure raise
absent_or-Reads (ok a) = λ o. refl
absent_or-Reads (err DepotError.object_not_exist) = λ o. refl
absent_or-Reads (err e) = λ o. refl

pub option-Reads :
    {A B : Type 0} (q : Option A) (m : Depot B) (f : A → Depot B)
    → Reads m
    → ((a : A) → Reads (f a))
    → Reads (elim q [ none ↦ m | some a ↦ f a ])
option-Reads none m f k l = k
option-Reads (some a) m f k l = l a

pub get_or_absent-Reads :
    {B : Type 0} (sha256 : Bytes → Bytes) (key : Bytes) (f : Option (Bytes × Bytes) → Depot B)
    → ((q : Option (Bytes × Bytes)) → Reads (f q))
    → Reads (attempt (get sha256 key) >>= λ r. absent_or r >>= f)
get_or_absent-Reads sha256 key f k =
    >>=-Reads _ _ (attempt-Reads _ (get-Reads sha256 key))
      (λ r. >>=-Reads _ _ (absent_or-Reads r) k)

-- A step that reads, and what its value is followed by.
pub read_bind :
    {A B : Type 0} (m : Depot A) (f : A → Depot B) (o : Objects) {r : Result DepotError A}
    → Reads m
    → value m o ≡ r
    → (m >>= f) (quietly o) ≡ continue r f (quietly o)
read_bind m f o h e = bind_known m f (quietly o) (h o ∙ ap (λ r. (r, quietly o)) e)

pub read_attempt :
    {A B : Type 0} (m : Depot A) (f : Result DepotError A → Depot B) (o : Objects)
    → Reads m
    → (attempt m >>= f) (quietly o) ≡ f (value m o) (quietly o)
read_attempt m f o h = bind_known (attempt m) f (quietly o) (attempt_known m (quietly o) (h o))

module _ (x : Externals) where
  pub machines-Reads : Reads (machines x)
  unfolding machines
  machines-Reads =
      get_or_absent-Reads _ _ _ (λ q. option-Reads q _ _ (pure-Reads []) (λ p. or_raise-Reads _ _))

  pub latest-Reads : (machine : Bytes) → Reads (latest x machine)
  unfolding latest
  latest-Reads machine = get_or_absent-Reads _ _ _ (λ q.
      option-Reads q _ _ (pure-Reads none)
        (λ p. >>=-Reads _ _ (or_raise-Reads _ _) (λ sha. pure-Reads (some sha))))

  pub prepared_manifest-Reads :
      (machine : Bytes) (sha : ManifestSha256) → Reads (prepared_manifest x machine sha)
  unfolding prepared_manifest
  prepared_manifest-Reads machine sha = >>=-Reads _ _ (raise_if-Reads _ _) (λ _.
      >>=-Reads _ _ (get-Reads _ _) (λ p. >>=-Reads _ _ (or_raise-Reads _ _) (λ s.
        >>=-Reads _ _ (raise_if-Reads _ _)
          (λ _. >>=-Reads _ _ (raise_if-Reads _ _) (λ _. pure-Reads s)))))

  pub manifest-Reads : (machine : Bytes) (sha : ManifestSha256) → Reads (manifest x machine sha)
  unfolding manifest
  manifest-Reads machine sha =
      >>=-Reads _ _ (prepared_manifest-Reads machine sha) (λ s. pure-Reads _)

  pub open_blob-Reads : (key : Bytes) → Reads (open_blob x key)
  unfolding open_blob
  open_blob-Reads key = >>=-Reads _ _ (get_stream-Reads _) (λ s. or_raise-Reads _ _)

  pub has_blob-Reads : (key : Bytes) → Reads (has_blob x key)
  unfolding has_blob
  has_blob-Reads key = exists-Reads _

-- A read that returns, by its value and the world that it leaves.
pub read_Returns :
    {A : Type 0} (m : Depot A) (o : Objects) {a : A} {v : World}
    → Reads m
    → m (quietly o) ≡ (ok a, v)
    → (value m o ≡ ok a) × (v ≡ quietly o)
read_Returns m o r h = (ap (λ p. p.0) h, ap (λ p. p.1) (sym h ∙ r o))

pub if-Reads :
    {A : Type 0} (b : Bool) (m n : Depot A) → Reads m → Reads n → Reads (if b then m else n)
if-Reads true m n k l = k
if-Reads false m n k l = l

pub parent-Reads : (x : Externals) (machine : Bytes) → Reads (parent x machine)
unfolding parent
parent-Reads x machine = >>=-Reads _ _ (latest-Reads x machine) (λ q.
    option-Reads q _ _ (pure-Reads none)
      (λ sha. >>=-Reads _ _ (manifest-Reads x machine sha) (λ m. pure-Reads _)))
