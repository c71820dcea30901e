-- ===== src/Depot/Store/Quiet.antt =====
-- The primitives in a world where nothing comes between and nothing fails.
use aha.Prelude.{
  true, ◌⊎◌, inl, inr, Option-cases, Bool, false, [], none, some, Result, ok, err, ◌≡◌, refl, ◌∙◌,
}
use aha.Text.{Bytes, text_eq, text_eq_refl}
use aha.Depot.Store.{
  Objects, write, World, DepotError, primitive, settle, check_context, exists, is_present,
  put_if_absent, write_absent, read_object, get, local_etag, write_conditional, put_conditional,
}

abbrev pub quietly : Objects → World
quietly o = record { objects = o; events = [] }

primitive-quietly :
    {A : Type 0} (f : Objects → Result DepotError A × Objects) (o : Objects)
    → primitive f (quietly o) ≡ ((f o).0, quietly (f o).1)
unfolding primitive settle
primitive-quietly f o = refl

pub check_context-quietly : (o : Objects) → check_context (quietly o) ≡ (ok tt, quietly o)
unfolding check_context
check_context-quietly o = primitive-quietly (λ q. (ok tt, q)) o

pub exists-quietly :
    (key : Bytes) (o : Objects) → (b : Bool) × (exists key (quietly o) ≡ (ok b, quietly o))
unfolding exists
exists-quietly key o = (is_present (o key), primitive-quietly (λ q. (ok (is_present (q key)), q)) o)

module _ (sha256 : Bytes → Bytes) where
  pub get-present :
      (o : Objects) (key b : Bytes)
      → o key ≡ some b
      → get sha256 key (quietly o) ≡ (ok (b, local_etag sha256 b), quietly o)
  unfolding get read_object
  get-present o key b e =
      primitive-quietly (λ q. (read_object sha256 q key, q)) o ∙ rw (e, read_object) refl

  pub get-absent :
      (o : Objects) (key : Bytes)
      → o key ≡ none
      → get sha256 key (quietly o) ≡ (err DepotError.object_not_exist, quietly o)
  unfolding get read_object
  get-absent o key e =
      primitive-quietly (λ q. (read_object sha256 q key, q)) o ∙ rw (e, read_object) refl

  pub put_conditional-absent :
      (o : Objects) (key b : Bytes)
      → o key ≡ none
      → put_conditional sha256 key b [] (quietly o) ≡ (ok tt, quietly (write o key b))
  unfolding put_conditional write_conditional text_eq
  put_conditional-absent o key b e =
      primitive-quietly (λ q. write_conditional sha256 q key b []) o
      ∙ rw (e, write_conditional) refl

  pub put_conditional-present :
      (o : Objects) (key b current : Bytes)
      → o key ≡ some current
      → text_eq (local_etag sha256 current) [] ≡ false
      → put_conditional sha256 key b (local_etag sha256 current) (quietly o)
        ≡ (ok tt, quietly (write o key b))
  unfolding put_conditional write_conditional
  put_conditional-present o key b current e n =
      primitive-quietly (λ q. write_conditional sha256 q key b (local_etag sha256 current)) o
      ∙ rw (e, write_conditional, n, text_eq_refl (local_etag sha256 current)) refl

pub exists_present :
    (key c : Bytes) (o : Objects) → o key ≡ some c → exists key (quietly o) ≡ (ok true, quietly o)
unfolding exists is_present
exists_present key c o e =
    primitive-quietly (λ q. (ok (is_present (q key)), q)) o ∙ rw (e, is_present) refl

pub exists_absent :
    (key : Bytes) (o : Objects) → o key ≡ none → exists key (quietly o) ≡ (ok false, quietly o)
unfolding exists is_present
exists_absent key o e =
    primitive-quietly (λ q. (ok (is_present (q key)), q)) o ∙ rw (e, is_present) refl

-- What is there stays; what is not there is written.
pub put_if_absent-quietly :
    (key b : Bytes) (o : Objects)
    → ((c : Bytes) × (o key ≡ some c) × (put_if_absent key b (quietly o) ≡ (ok false, quietly o)))
      ⊎ ((o key ≡ none) × (put_if_absent key b (quietly o) ≡ (ok true, quietly (write o key b))))
unfolding put_if_absent write_absent
put_if_absent-quietly key b o = elim (Option-cases (o key)) [
  | inl e ↦ inr (e, primitive-quietly (λ q. write_absent q key b) o ∙ rw (e, write_absent) refl)
  | inr (c, e) ↦
      inl (c, e, primitive-quietly (λ q. write_absent q key b) o ∙ rw (e, write_absent) refl)
]
