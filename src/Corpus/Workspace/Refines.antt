-- ===== src/Corpus/Workspace/Refines.antt =====
-- The tables of a Workspace against what they stand for: the Archive it is bound to, and the identity
-- of the manifest that it holds of each machine.
use aha.Prelude.{
  Bool, true, false, not, ◌||◌, [], Option, none, some, ◌≡◌, ◌≢◌, ◌⊎◌, inl, inr, refl,
  if◌then◌else◌, arith, sym, ap, subst, ◌∙◌, Bool-cases,
}
use aha.Text.{Bytes, text_eq, text_eq_iff}
use aha.Text.Dict.{Dict, get}
use aha.Model.Binding.{ArchiveBinding, new_archive_binding}
use aha.Model.Lifecycle.{WorkspaceState, absent, current, behind, archive_mismatch}
use aha.Corpus.Workspace.{
  Tables, WorkspaceError, workspace_binding, materialised_vector, read_rows, equal_vector,
  workspace_state, judge_binding, judge_vector, binding_of_row, row_result, is_other,
}
use aha.Corpus.Workspace.Vector.{IsVector, equal_vector_iff, get-read_rows, read_rows-IsVector}

-- A binding that `NewArchiveBinding` made.
abbrev pub IsMadeBinding : ArchiveBinding → Type 0
IsMadeBinding b = new_archive_binding b.identity b.address ≡ some b

-- What the tables always hold.
pub record IsSound (db : Tables) : Type 0 where
  pub bound :
      (db.binding ≡ none)
      ⊎ ((b : ArchiveBinding) × (db.binding ≡ some (b.identity, b.address)) × IsMadeBinding b)
  pub vector : IsVector db.materialised

abbrev pub empty_tables : Tables
empty_tables = record { binding = none; materialised = [] }

pub empty_tables-IsSound : IsSound empty_tables
empty_tables-IsSound = record { bound = inl refl; vector = (tt, tt) }

both_equal : (p q : Bool) → (not p || not q) ≡ false → (p ≡ true) × (q ≡ true)
both_equal p q h = ground arith

same_parts : (a b : ArchiveBinding) → a.identity ≡ b.identity → a.address ≡ b.address → a ≡ b
same_parts a b p q = λ i. record { identity = p i; address = q i }

-- Both parts of a binding agree.
same_binding : (a b : ArchiveBinding) → is_other a.identity a.address b ≡ false → a ≡ b
same_binding a b h =
    let (p, q) = both_equal (text_eq a.identity b.identity) (text_eq a.address b.address) h in
    same_parts a b ((text_eq_iff a.identity b.identity).0 p) ((text_eq_iff a.address b.address).0 q)

other_binding : (a b : ArchiveBinding) → is_other a.identity a.address b ≡ true → a ≢ b
other_binding a b h e = ground (
  arith,
  ap (λ (c : ArchiveBinding). c.identity) e,
  ap (λ (c : ArchiveBinding). c.address) e,
  text_eq_iff a.identity b.identity,
  text_eq_iff a.address b.address,
)

-- What `WorkspaceState` answers of a Workspace that no statement fails on.
pub data Answer (db : Tables) (requested : ArchiveBinding) (latest : Dict Bytes)
    : WorkspaceState → Type 0 where
  is_absent : db.binding ≡ none → Answer db requested latest absent
  is_elsewhere :
      (b : ArchiveBinding)
      → db.binding ≡ some (b.identity, b.address)
      → b ≢ requested
      → Answer db requested latest archive_mismatch
  is_current :
      db.binding ≡ some (requested.identity, requested.address)
      → ((machine : Bytes) → get db.materialised machine ≡ get latest machine)
      → Answer db requested latest current
  is_behind :
      db.binding ≡ some (requested.identity, requested.address)
      → ¬ ((machine : Bytes) → get db.materialised machine ≡ get latest machine)
      → Answer db requested latest behind

answer_vector :
    (db : Tables) (requested : ArchiveBinding) (latest : Dict Bytes)
    → IsVector db.materialised
    → IsVector latest
    → db.binding ≡ some (requested.identity, requested.address)
    → (state : WorkspaceState) × (judge_vector latest (materialised_vector false db)
        ≡ (state, none))
      × Answer db requested latest state
unfolding materialised_vector
answer_vector db requested latest w v e =
    let held = read_rows [] db.materialised in
    let decided =
      equal_vector_iff held latest (read_rows-IsVector db.materialised [] w.1 (tt, tt)) v in
    elim (Bool-cases (equal_vector held latest)) [
      | inl h ↦ (
        current,
        ap (λ b. if b then (current, none) else (behind, none)) h,
        is_current e (λ k. sym (get-read_rows db.materialised k w.0) ∙ decided.0 h k),
      )
      | inr h ↦ (
        behind,
        ap (λ b. if b then (current, none) else (behind, none)) h,
        is_behind e (λ all. cc (decided.1 (λ k. get-read_rows db.materialised k w.0 ∙ all k), h)),
      )
    ]

answer_bound :
    (db : Tables) (requested : ArchiveBinding) (latest : Dict Bytes) (b : ArchiveBinding)
    → IsVector db.materialised
    → IsVector latest
    → db.binding ≡ some (b.identity, b.address)
    → IsMadeBinding b
    → (state : WorkspaceState) × (workspace_state false db requested latest ≡ (state, none))
      × Answer db requested latest state
unfolding workspace_state workspace_binding
answer_bound db requested latest b w v e m =
    let row = ap binding_of_row e ∙ ap row_result m in
    let judged = ap (judge_binding false db requested latest) row in
    let other : Bool → WorkspaceState × Option WorkspaceError = λ c.
      if c then (archive_mismatch, none) else judge_vector latest (materialised_vector false db) in
    elim (Bool-cases (is_other b.identity b.address requested)) [
      | inl h ↦
          (archive_mismatch, judged ∙ ap other h, is_elsewhere b e (other_binding b requested h))
      | inr h ↦
          let (state, p, answer) = answer_vector db requested latest w v (
            subst (λ (c : ArchiveBinding). db.binding ≡ some (c.identity, c.address))
              (same_binding b requested h) e) in
          (state, judged ∙ ap other h ∙ p, answer)
    ]

-- In a Workspace with sound tables, where no statement fails, and for a latest vector in which each machine stands once with
-- an identity that is not empty, `WorkspaceState` returns no error, and its state is: absent
-- where there is no binding, a mismatch where the binding is to another Archive than the requested one, and otherwise current
-- or behind, as the identities that were recorded are those of the latest vector or not.
pub workspace_state-Answer :
    (db : Tables) (requested : ArchiveBinding) (latest : Dict Bytes)
    → IsSound db
    → IsVector latest
    → (state : WorkspaceState) × (workspace_state false db requested latest ≡ (state, none))
      × Answer db requested latest state
unfolding workspace_state workspace_binding materialised_vector
workspace_state-Answer db requested latest s v = elim s.bound [
  | inl e ↦
      (absent, ap (λ r. judge_binding false db requested latest (binding_of_row r)) e, is_absent e)
  | inr (b, e, m) ↦ answer_bound db requested latest b s.vector v e m
]
