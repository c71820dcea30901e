-- ===== src/Corpus/Workspace.antt =====
-- internal/corpus/workspace_state.go: what a Workspace remembers of its Archive, in the tables
-- `workspace_binding` and `workspace_materialised`. Each function runs one transaction. `fails` says
-- that a statement of it fails, and then nothing of it is kept.
pub mod Vector
pub mod Reached
pub mod Rows
pub mod Refines
use aha.Prelude.{
  ℕ, ◌==◌, Bool, true, false, not, ◌||◌, ◌&&◌, List, [], ◌∷◌, Option, none, some, map, length,
  if◌then◌else◌, Result, ok, err, ◌>>=◌, ◌>>◌, fail_if,
}
use aha.Text.{Bytes, text_eq}
use aha.Text.Dict.{Dict, get, put, keys}
use aha.Text.Order.{text_ltb}
use aha.Prelude.Sort.{sort_stable}
use aha.Model.Binding.{ArchiveBinding, new_archive_binding, is_bound}
use aha.Model.Identity.{parse_sha256_hex}
use aha.Model.Lifecycle.{WorkspaceState, absent, current, behind, damaged, archive_mismatch}

-- The row of `workspace_binding`, and the rows of `workspace_materialised`.
pub record Tables : Type 0 where
  pub binding : Option (Bytes × Bytes)
  pub materialised : List (Bytes × Bytes)

pub data WorkspaceError : Type 0 where
  invalid_binding mismatch sql_failed empty_machine : WorkspaceError
  invalid_vector_sha : Bytes → WorkspaceError

abbrev pub is_other : Bytes → Bytes → ArchiveBinding → Bool
is_other i a b = not (text_eq i b.identity) || not (text_eq a b.address)

-- What `BindWorkspace` does with the row that is there.
abbrev pub bind_row :
    Tables → ArchiveBinding → Option (Bytes × Bytes) → Result WorkspaceError (Unit {0}) × Tables
bind_row db b none = (ok tt, record db { binding = some (b.identity, b.address) })
bind_row db b (some (i, a)) = if is_other i a b then (err mismatch, db) else (ok tt, db)

-- `BindWorkspace`
unfoldable pub bind_workspace :
    Bool → Tables → ArchiveBinding → Result WorkspaceError (Unit {0}) × Tables
bind_workspace fails db b =
    if not (is_bound b)
    then (err invalid_binding, db)
    else if fails
    then (err sql_failed, db)
    else bind_row db b db.binding

abbrev pub row_result : Option ArchiveBinding → Result WorkspaceError (Option ArchiveBinding)
row_result none = err invalid_binding
row_result (some b) = ok (some b)

abbrev pub binding_of_row : Option (Bytes × Bytes) → Result WorkspaceError (Option ArchiveBinding)
binding_of_row none = ok none
binding_of_row (some (i, a)) = row_result (new_archive_binding i a)

-- `WorkspaceBinding`; the row of the table may be damaged.
unfoldable pub workspace_binding : Bool → Tables → Result WorkspaceError (Option ArchiveBinding)
workspace_binding fails db = if fails then err sql_failed else binding_of_row db.binding

unfoldable pub check_sha : Bytes → Bytes → Result WorkspaceError (Unit {0})
check_sha machine sha = elim (parse_sha256_hex sha) [
  | err e ↦ err (invalid_vector_sha machine)
  | ok h ↦ ok tt
]

-- The tests of `RecordMaterialisedVector` on each machine.
unfoldable pub check_vector : Dict Bytes → Result WorkspaceError (Unit {0})
unfolding check_sha
check_vector [] = ok tt
check_vector ((machine, sha) ∷ v) = do
  fail_if (text_eq machine []) empty_machine
  check_sha machine sha
  check_vector v

-- `vector[machine]`
abbrev pub or_blank : Option Bytes → Bytes
or_blank none = []
or_blank (some sha) = sha

abbrev pub rows_of : Dict Bytes → List (Bytes × Bytes)
rows_of vector =
    map (λ machine. (machine, or_blank (get vector machine))) (sort_stable text_ltb (keys vector))

abbrev pub record_checked :
    Bool
    → Tables
    → Dict Bytes
    → Result WorkspaceError (Unit {0})
    → Result WorkspaceError (Unit {0}) × Tables
record_checked fails db vector (err e) = (err e, db)
record_checked fails db vector (ok u) =
    if fails then (err sql_failed, db) else (ok tt, record db { materialised = rows_of vector })

unfoldable pub record_materialised_vector :
    Bool → Tables → Dict Bytes → Result WorkspaceError (Unit {0}) × Tables
record_materialised_vector fails db vector = record_checked fails db vector (check_vector vector)

unfoldable pub read_rows : Dict Bytes → List (Bytes × Bytes) → Dict Bytes
read_rows out [] = out
read_rows out ((machine, sha) ∷ rows) = read_rows (put out machine sha) rows

unfoldable pub materialised_vector : Bool → Tables → Result WorkspaceError (Dict Bytes)
materialised_vector fails db = if fails then err sql_failed else ok (read_rows [] db.materialised)

unfoldable pub agrees : Dict Bytes → Dict Bytes → Bool
agrees [] b = true
agrees ((machine, sha) ∷ a) b = text_eq (or_blank (get b machine)) sha && agrees a b

unfoldable pub equal_vector : Dict Bytes → Dict Bytes → Bool
equal_vector a b = length a == length b && agrees a b

abbrev pub judge_vector :
    Dict Bytes → Result WorkspaceError (Dict Bytes) → WorkspaceState × Option WorkspaceError
judge_vector latest (err e) = (damaged, some e)
judge_vector latest (ok v) = if equal_vector v latest then (current, none) else (behind, none)

abbrev pub judge_binding :
    Bool
    → Tables
    → ArchiveBinding
    → Dict Bytes
    → Result WorkspaceError (Option ArchiveBinding)
    → WorkspaceState × Option WorkspaceError
judge_binding fails db requested latest (err e) = (damaged, some e)
judge_binding fails db requested latest (ok none) = (absent, none)
judge_binding fails db requested latest (ok (some b)) =
    if is_other b.identity b.address requested
    then (archive_mismatch, none)
    else judge_vector latest (materialised_vector fails db)

unfoldable pub workspace_state :
    Bool → Tables → ArchiveBinding → Dict Bytes → WorkspaceState × Option WorkspaceError
workspace_state fails db requested latest =
    judge_binding fails db requested latest (workspace_binding fails db)
