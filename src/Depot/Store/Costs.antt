-- ===== src/Depot/Store/Costs.antt =====
-- How many primitive calls an operation makes at most, whatever the other processes do and whichever
-- calls fail. A call takes one event of the world, as long as there are any.
use aha.Prelude.{
  ℕ, ◌+◌, ◌≤◌, Bool, true, false, List, [], ◌∷◌, Result, ok, err, arith, length, if◌then◌else◌,
  Bool-cases, inl, inr,
}
use aha.Text.{Bytes}
use aha.Depot.Store.{
  Objects, Event, World, Depot, DepotError, continue, ◌>>=◌, pure, raise, attempt, settle,
  primitive, check_context, get, put_conditional,
}
use aha.Depot.Machine.{or_raise, raise_if, absent_or}

abbrev pub Costs : {A : Type 0} → ℕ → Depot A → Type 0
Costs k m = (w : World) → length w.events ≤ length (m w).1.events + k

pub pure-Costs : {A : Type 0} (k : ℕ) (a : A) → Costs k (pure a)
unfolding pure
pure-Costs k a w = omega arith

pub raise-Costs : (A : Type 0) (k : ℕ) (e : DepotError) → Costs k (raise {A = A} e)
unfolding raise
raise-Costs A k e w = omega arith

continue-Costs :
    {A B : Type 0} (k : ℕ) (r : Result DepotError A) (f : A → Depot B)
    → ((a : A) → Costs k (f a))
    → Costs k (continue r f)
continue-Costs k (ok a) f h w = h a w
continue-Costs k (err e) f h w = omega arith

pub >>=-Costs :
    {A B : Type 0} (j k : ℕ) (m : Depot A) (f : A → Depot B)
    → Costs j m
    → ((a : A) → Costs k (f a))
    → Costs (j + k) (m >>= f)
unfolding ◌>>=◌
>>=-Costs j k m f h l w = omega (arith, h w, continue-Costs k (m w).0 f l (m w).1)

pub attempt-Costs : {A : Type 0} (k : ℕ) (m : Depot A) → Costs k m → Costs k (attempt m)
unfolding attempt
attempt-Costs k m h w = h w

settle-Costs : (es : List Event) (w : World) → length es ≤ length (settle es w).1.events + 1
unfolding settle
settle-Costs [] w = omega arith
settle-Costs (e ∷ es) w = omega arith

pub primitive-Costs :
    {A : Type 0} (f : Objects → Result DepotError A × Objects) → Costs 1 (primitive f)
unfolding primitive
primitive-Costs f w = elim (Bool-cases (settle w.events w).0) [
  | inl e ↦ rw e (settle-Costs w.events w)
  | inr e ↦ rw e (settle-Costs w.events w)
]

pub check_context-Costs : Costs 1 check_context
unfolding check_context
check_context-Costs = primitive-Costs _

pub get-Costs : (sha256 : Bytes → Bytes) (key : Bytes) → Costs 1 (get sha256 key)
unfolding get
get-Costs sha256 key = primitive-Costs _

pub put_conditional-Costs :
    (sha256 : Bytes → Bytes) (key b etag : Bytes) → Costs 1 (put_conditional sha256 key b etag)
unfolding put_conditional
put_conditional-Costs sha256 key b etag = primitive-Costs _

pub absent_or-Costs : {A : Type 0} (r : Result DepotError A) → Costs 0 (absent_or r)
unfolding pure raise
absent_or-Costs (ok a) = λ w. omega arith
absent_or-Costs (err DepotError.object_not_exist) = λ w. omega arith
absent_or-Costs (err e) = λ w. omega arith

pub or_raise-Costs : {E A : Type 0} (r : Result E A) (e : DepotError) → Costs 0 (or_raise r e)
or_raise-Costs (ok a) e = pure-Costs 0 a
or_raise-Costs (err x) e = raise-Costs _ 0 e

pub raise_if-Costs : (b : Bool) (e : DepotError) → Costs 0 (raise_if b e)
raise_if-Costs true e = raise-Costs _ 0 e
raise_if-Costs false e = pure-Costs 0 tt

pub if-Costs :
    {A : Type 0} (k : ℕ) (b : Bool) (m n : Depot A)
    → Costs k m
    → Costs k n
    → Costs k (if b then m else n)
if-Costs k true m n h l = h
if-Costs k false m n h l = l
