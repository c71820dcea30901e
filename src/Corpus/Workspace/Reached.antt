-- ===== src/Corpus/Workspace/Reached.antt =====
-- Every sequence of bindings and recordings, failed statements included.
use aha.Prelude.{
  Bool, true, false, not, [], Option, none, some, ◌≡◌, ◌⊎◌, inl, inr, refl, if◌then◌else◌, Result,
  ok, err, sym, ap, subst, ◌∙◌,
}
use aha.Text.{Bytes, text_eq}
use aha.Text.Dict.{Dict, get}
use aha.Text.Dict.Distinct.{IsDistinct}
use aha.Model.Binding.{ArchiveBinding, is_bound}
use aha.Corpus.Workspace.{
  Tables, WorkspaceError, mismatch, invalid_binding, sql_failed, bind_row, bind_workspace,
  check_vector, record_checked, record_materialised_vector, materialised_vector, read_rows, rows_of,
  is_other,
}
use aha.Corpus.Workspace.Vector.{get-read_rows}
use aha.Corpus.Workspace.Rows.{get-rows_of, rows_of-IsVector}
use aha.Corpus.Workspace.Refines.{IsMadeBinding, IsSound, empty_tables, empty_tables-IsSound}

-- The fields of a binding are private to its package, so a value is the zero one, or one that
-- `NewArchiveBinding` made.
abbrev pub IsBindingValue : ArchiveBinding → Type 0
IsBindingValue b = (b ≡ record { identity = []; address = [] }) ⊎ IsMadeBinding b

-- One call, of any value of a binding, or with a vector that is a Go map.
pub data Step : Tables → Tables → Type 0 where
  binds :
      (fails : Bool) {db : Tables} (b : ArchiveBinding)
      → IsBindingValue b
      → Step db (bind_workspace fails db b).1
  records :
      (fails : Bool) {db : Tables} (vector : Dict Bytes)
      → IsDistinct vector
      → Step db (record_materialised_vector fails db vector).1

pub data Steps : Tables → Tables → Type 0 where
  stay : {db : Tables} → Steps db db
  step : {a b c : Tables} → Steps a b → Step b c → Steps a c

-- What the row that is there leaves.
bind_row-cases :
    (db : Tables) (b : ArchiveBinding) (row : Option (Bytes × Bytes))
    → ((bind_row db b row).1 ≡ db)
      ⊎ ((row ≡ none)
          × ((bind_row db b row).1 ≡ record db { binding = some (b.identity, b.address) }))
bind_row-cases db b none = inr (refl, refl)
bind_row-cases db b (some (i, a)) = inl (kept (is_other i a b))
  where
    kept :
        (c : Bool)
        → (if◌then◌else◌ {A = Result WorkspaceError (Unit {0}) × Tables} c
            (err mismatch, db)
            (ok tt, db)).1
          ≡ db
    kept true = refl
    kept false = refl

bind_workspace-cases :
    (fails : Bool) (db : Tables) (b : ArchiveBinding)
    → ((bind_workspace fails db b).1 ≡ db)
      ⊎ ((is_bound b ≡ true)
          × (db.binding ≡ none)
          × ((bind_workspace fails db b).1 ≡ record db { binding = some (b.identity, b.address) }))
unfolding bind_workspace
bind_workspace-cases fails db b = guarded (is_bound b) fails
  where
    left : Bool → Bool → Result WorkspaceError (Unit {0}) × Tables
    left c d =
        if not c
        then (err invalid_binding, db)
        else if d
        then (err sql_failed, db)
        else bind_row db b db.binding

    guarded :
        (c d : Bool)
        → ((left c d).1 ≡ db)
          ⊎ ((c ≡ true)
              × (db.binding ≡ none)
              × ((left c d).1 ≡ record db { binding = some (b.identity, b.address) }))
    guarded false d = inl refl
    guarded true true = inl refl
    guarded true false = elim (bind_row-cases db b db.binding) [
      | inl e ↦ inl e
      | inr (n, e) ↦ inr (refl, n, e)
    ]

-- The zero binding is not valid.
bound-IsMadeBinding : (b : ArchiveBinding) → is_bound b ≡ true → IsBindingValue b → IsMadeBinding b
unfolding is_bound text_eq
bound-IsMadeBinding b h (inr m) = m
bound-IsMadeBinding b h (inl e) = absurd (cc (ap is_bound e, h))

record_checked-cases :
    (fails : Bool) (db : Tables) (vector : Dict Bytes) (r : Result WorkspaceError (Unit {0}))
    → ((record_checked fails db vector r).1 ≡ db)
      ⊎ ((r ≡ ok tt)
          × ((record_checked fails db vector r).1 ≡ record db { materialised = rows_of vector }))
record_checked-cases fails db vector (err e) = inl refl
record_checked-cases true db vector (ok u) = inl refl
record_checked-cases false db vector (ok u) = inr (refl, refl)

Step-IsSound : {db next : Tables} → Step db next → IsSound db → IsSound next
unfolding record_materialised_vector
Step-IsSound (binds fails {db} b m) s = elim (bind_workspace-cases fails db b) [
  | inl e ↦ subst IsSound (sym e) s
  | inr (v, n, e) ↦
      subst IsSound (sym e)
        (record { bound = inr (b, refl, bound-IsMadeBinding b v m); vector = s.vector })
]
Step-IsSound (records fails {db} vector p) s =
    elim (record_checked-cases fails db vector (check_vector vector)) [
      | inl e ↦ subst IsSound (sym e) s
      | inr (c, e) ↦
          subst IsSound (sym e) (record { bound = s.bound; vector = rows_of-IsVector vector p c })
    ]

-- Whatever bindings and recordings are tried in turn on an empty Workspace, the zero binding included,
-- of vectors that are Go maps and with failed statements anywhere, its tables are sound: the binding, where there is one, is one that `NewArchiveBinding` makes, and
-- each machine stands once, with an identity that is not empty.
pub Steps-IsSound : {db : Tables} → Steps empty_tables db → IsSound db
Steps-IsSound stay = empty_tables-IsSound
Steps-IsSound (step before last) = Step-IsSound last (Steps-IsSound before)

Step-keeps :
    {db next : Tables} {row : Bytes × Bytes}
    → Step db next
    → db.binding ≡ some row
    → next.binding ≡ some row
unfolding record_materialised_vector
Step-keeps (binds fails {db} b m) h = elim (bind_workspace-cases fails db b) [
  | inl e ↦ ap (λ (t : Tables). t.binding) e ∙ h
  | inr (v, n, e) ↦ cc (n, h)
]
Step-keeps (records fails {db} vector p) h =
    elim (record_checked-cases fails db vector (check_vector vector)) [
      | inl e ↦ ap (λ (t : Tables). t.binding) e ∙ h
      | inr (c, e) ↦ ap (λ (t : Tables). t.binding) e ∙ h
    ]

-- A Workspace that is bound to an Archive stays bound to it, whatever bindings and recordings
-- follow.
pub Steps-keeps_binding :
    {db later : Tables} {row : Bytes × Bytes}
    → Steps db later
    → db.binding ≡ some row
    → later.binding ≡ some row
Steps-keeps_binding stay h = h
Steps-keeps_binding (step before last) h = Step-keeps last (Steps-keeps_binding before h)

-- Where no statement fails, a vector that `RecordMaterialisedVector` accepts is what
-- `MaterialisedVector` returns after it, machine by machine.
pub materialised-record_vector :
    (db : Tables) (vector : Dict Bytes)
    → IsDistinct vector
    → (record_materialised_vector false db vector).0 ≡ ok tt
    → (read : Dict Bytes) × (materialised_vector false
          (record_materialised_vector false db vector).1
        ≡ ok read)
      × ((machine : Bytes) → get read machine ≡ get vector machine)
unfolding record_materialised_vector materialised_vector
materialised-record_vector db vector p h = go (check_vector vector) refl h
  where
    go :
        (r : Result WorkspaceError (Unit {0}))
        → check_vector vector ≡ r
        → (record_checked false db vector r).0 ≡ ok tt
        → (read : Dict Bytes) × (◌≡◌ {A = Result WorkspaceError (Dict Bytes)}
            (ok (read_rows [] (record_checked false db vector r).1.materialised))
            (ok read))
          × ((machine : Bytes) → get read machine ≡ get vector machine)
    go (err e) q k = cc
    go (ok u) q k = (
      read_rows [] (rows_of vector),
      refl,
      λ m. get-read_rows (rows_of vector) m (rows_of-IsVector vector p q).0 ∙ get-rows_of vector m,
    )
