-- ===== src/Depot/Store/Atomic.antt =====
-- `AtomicWriteCreated` of internal/fileutil/hashcopy.go with `ExistingOK`, step by step: other processes
-- act between any two of its steps, and each step may fail. os.Stat and os.Link are those of the
-- operating system; os.Link makes a name that is not there, or finds it there, at once.
use aha.Prelude.{
  Bool, true, false, ◌||◌, List, [], ◌∷◌, ◌++◌, none, some, Result, ok, err, if◌then◌else◌, ◌≡◌,
  refl, ap, ◌∙◌, Bool-cases, Option-cases, inl, inr,
}
use aha.Text.{Bytes}
use aha.Depot.Store.{
  Objects, Event, World, Depot, DepotError, ◌>>=◌, ◌>>◌, pure, primitive, settle, write, exists,
  is_present, put_if_absent, write_absent,
}

-- `os.Link` of the temporary file to the path: false where the path is there.
link_new : Bytes → Bytes → Objects → Result DepotError Bool × Objects
link_new key b o = elim (o key) [ none ↦ (ok true, write o key b) | some _ ↦ (ok false, o) ]

-- The directory, and the temporary file with its bytes, which no key names.
stage : Depot (Unit {0})
stage = primitive (λ o. (ok tt, o))

-- The second `os.Stat`, and the link.
place : Bytes → Bytes → Depot Bool
unfolding link_new
place key b = do present ← exists key; if present then pure false else primitive (link_new key b)

unfoldable pub atomic_write_created : Bytes → Bytes → Depot Bool
unfolding stage place
atomic_write_created key b = do
  present ← exists key
  if present then pure false else (do stage; place key b)

-- Several events as one.
abbrev pub merged : List Event → Event
merged [] = record { change = λ o. o; fails = false }
merged (e ∷ es) = record {
  change = λ o. (merged es).change (e.change o);
  fails = e.fails || (merged es).fails;
}

module _ (key b : Bytes) where
  -- An operation comes to what the atomic write does after the events that it ran into.
  abbrev IsAtomic : Depot Bool → Type 0
  IsAtomic m =
      (o : Objects) (es : List Event)
      → (ran : List Event) × (rest : List Event) × (es ≡ ran ++ rest)
        × (put_if_absent key b (record { objects = o; events = merged ran ∷ rest })
            ≡ m (record { objects = o; events = es }))

  -- What the atomic write does on objects where nothing fails.
  written : Objects → List Event → Result DepotError Bool × World
  written o rest = let (r, q) = write_absent o key b in (r, record { objects = q; events = rest })

  put-failed :
      (o : Objects) (e : Event) (es : List Event)
      → e.fails ≡ true
      → put_if_absent key b (record { objects = o; events = e ∷ es })
        ≡ (err DepotError.io_failed, record { objects = e.change o; events = es })
  unfolding put_if_absent primitive settle
  put-failed o e es h = rw h refl

  put-passed :
      (o : Objects) (e : Event) (es : List Event)
      → e.fails ≡ false
      → put_if_absent key b (record { objects = o; events = e ∷ es }) ≡ written (e.change o) es
  unfolding put_if_absent primitive settle written
  put-passed o e es h = rw h refl

  -- An event that does not fail, before others.
  put-later :
      (o : Objects) (e : Event) (ran rest : List Event)
      → e.fails ≡ false
      → put_if_absent key b (record { objects = o; events = merged (e ∷ ran) ∷ rest })
        ≡ put_if_absent key b (record { objects = e.change o; events = merged ran ∷ rest })
  unfolding put_if_absent primitive settle
  put-later o e ran rest h = rw h refl

  put-alone :
      (o : Objects) (e : Event) (es : List Event)
      → put_if_absent key b (record { objects = o; events = merged (e ∷ []) ∷ es })
        ≡ put_if_absent key b (record { objects = o; events = e ∷ es })
  unfolding put_if_absent primitive settle
  put-alone o e es = elim (Bool-cases e.fails) [ inl h ↦ rw h refl | inr h ↦ rw h refl ]

  -- A step that changes nothing, and then an atomic operation for what it found.
  step-IsAtomic :
      {A : Type 0} (f : Objects → A) (next : A → Depot Bool)
      → ((o : Objects) (es : List Event)
          → (ran : List Event) × (rest : List Event) × (es ≡ ran ++ rest)
            × (put_if_absent key b (record { objects = o; events = merged ran ∷ rest })
                ≡ next (f o) (record { objects = o; events = es })))
      → IsAtomic (primitive (λ o. (ok (f o), o)) >>= next)
  unfolding primitive settle ◌>>=◌
  step-IsAtomic f next k o [] = k o []
  step-IsAtomic f next k o (e ∷ es) = elim (Bool-cases e.fails) [
    | inl h ↦ (e ∷ [], es, refl, put-alone o e es ∙ put-failed o e es h ∙ rw h refl)
    | inr h ↦
        let (ran, rest, p, q) = k (e.change o) es in
        (e ∷ ran, rest, ap (λ l. e ∷ l) p, put-later o e ran rest h ∙ q ∙ rw h refl)
  ]

  link-IsAtomic : IsAtomic (primitive (link_new key b))
  unfolding put_if_absent primitive settle write_absent link_new
  link-IsAtomic o [] = ([], [], refl, refl)
  link-IsAtomic o (e ∷ es) = (e ∷ [], es, refl, put-alone o e es)

  present-IsAtomic :
      (o : Objects) (es : List Event) (next : Depot Bool)
      → IsAtomic next
      → (ran : List Event) × (rest : List Event) × (es ≡ ran ++ rest)
        × (put_if_absent key b (record { objects = o; events = merged ran ∷ rest })
            ≡ (if is_present (o key) then pure false else next)
                (record { objects = o; events = es }))
  unfolding is_present pure put_if_absent primitive settle write_absent
  present-IsAtomic o es next k = elim (Option-cases (o key)) [
    | inl e ↦ let (ran, rest, p, q) = k o es in (ran, rest, p, q ∙ rw e refl)
    | inr (c, e) ↦ ([], es, refl, rw (e, write_absent) refl)
  ]

  place-IsAtomic : IsAtomic (place key b)
  unfolding place exists
  place-IsAtomic =
      step-IsAtomic (λ o. is_present (o key)) _ (λ o es. present-IsAtomic o es _ link-IsAtomic)

  staged-IsAtomic : IsAtomic (stage >> place key b)
  unfolding stage
  staged-IsAtomic = step-IsAtomic (λ o. tt) _ place-IsAtomic

  -- Whatever other processes do between the steps of `AtomicWriteCreated`, and whichever of them fails:
  -- its outcome and what it leaves are those of one atomic write, which happens after the events that
  -- came between and fails if one of them does.
  pub atomic_write_created-put_if_absent :
      (o : Objects) (es : List Event)
      → (ran : List Event) × (rest : List Event) × (es ≡ ran ++ rest)
        × (put_if_absent key b (record { objects = o; events = merged ran ∷ rest })
            ≡ atomic_write_created key b (record { objects = o; events = es }))
  unfolding atomic_write_created exists
  atomic_write_created-put_if_absent =
      step-IsAtomic (λ o. is_present (o key)) _ (λ o es. present-IsAtomic o es _ staged-IsAtomic)
