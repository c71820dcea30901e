-- ===== src/Examples/Workspaces.antt =====
-- A Workspace that is bound, then holds the manifests of two machines.
use aha.Corpus.Workspace.{agrees, check_sha, workspace_binding, check_vector, read_rows}
use aha.Model.Binding.{is_bound}
use aha.Text.{text_eq}
use aha.Prelude.{inr, false, [], ◌∷◌, none, some, ◌≡◌, refl, ok}
use aha.Text.{Bytes, codes}
use aha.Encoding.Hex
use aha.Prelude.Sort.{sort_stable, insert_stable}
use aha.Model.Identity.{parse_sha256_hex, to_lower_ascii}
use aha.Text.Space.{trim_space, space_width}
use aha.Text.Order.{text_ltb}
use aha.Text.Dict.{put, delete, Dict, get}
use aha.Text.Dict.Distinct.{IsDistinct}
use aha.Model.Binding.{ArchiveBinding, new_archive_binding}
use aha.Model.Lifecycle.{WorkspaceState, current}
use aha.Corpus.Workspace.{
  Tables, bind_workspace, record_materialised_vector, materialised_vector, equal_vector,
  workspace_state,
}
use aha.Corpus.Workspace.Vector.{IsVector}
use aha.Corpus.Workspace.Refines.{
  IsMadeBinding, IsSound, Answer, empty_tables, workspace_state-Answer,
}
use aha.Corpus.Workspace.Reached.{
  Steps, binds, records, stay, step, Steps-IsSound, Steps-keeps_binding, materialised-record_vector,
}

abbrev an_archive : ArchiveBinding
an_archive = record { identity = codes "id1"; address = codes "local:/a" }

an_archive_made : IsMadeBinding an_archive
unfolding new_archive_binding text_eq trim_space
an_archive_made = refl

abbrev a_sha : Bytes
a_sha = codes "00112233445566778899aabbccddeeff00112233445566778899aabbccddeeff"

abbrev two_machines : Dict Bytes
two_machines = (codes "m2", a_sha) ∷ (codes "m1", a_sha) ∷ []

two_machines-IsDistinct : IsDistinct two_machines
unfolding get text_eq
two_machines-IsDistinct = (refl, (refl, tt))

two_machines-IsVector : IsVector two_machines
two_machines-IsVector = (two_machines-IsDistinct, (cc, (cc, tt)))

bound_tables : Tables
bound_tables = (bind_workspace false empty_tables an_archive).1

full_tables : Tables
full_tables = (record_materialised_vector false bound_tables two_machines).1

to_bound : Steps empty_tables bound_tables
unfolding bound_tables
to_bound = step stay (binds false an_archive (inr an_archive_made))

bound_to_full : Steps bound_tables full_tables
unfolding full_tables
bound_to_full = step stay (records false two_machines two_machines-IsDistinct)

to_full : Steps empty_tables full_tables
unfolding full_tables
to_full = step to_bound (records false two_machines two_machines-IsDistinct)

full_is_current : workspace_state false full_tables an_archive two_machines ≡ (current, none)
unfolding full_tables bound_tables workspace_state bind_workspace record_materialised_vector
    workspace_binding check_vector text_eq parse_sha256_hex Hex.decode to_lower_ascii is_bound
    new_archive_binding trim_space materialised_vector equal_vector read_rows sort_stable text_ltb
    put delete agrees check_sha insert_stable get space_width
full_is_current = refl

Steps-IsSound_example : IsSound full_tables
Steps-IsSound_example = Steps-IsSound to_full

Steps-keeps_binding_example : full_tables.binding ≡ some (codes "id1", codes "local:/a")
unfolding bound_tables bind_workspace is_bound text_eq
Steps-keeps_binding_example = Steps-keeps_binding bound_to_full refl

workspace_state-Answer_example :
    (state : WorkspaceState) × (workspace_state false full_tables an_archive two_machines
      ≡ (state, none))
    × Answer full_tables an_archive two_machines state
workspace_state-Answer_example =
    workspace_state-Answer full_tables an_archive two_machines (Steps-IsSound to_full)
      two_machines-IsVector

materialised-record_vector_example :
    (read : Dict Bytes) × (materialised_vector false
        (record_materialised_vector false bound_tables two_machines).1
      ≡ ok read)
    × ((machine : Bytes) → get read machine ≡ get two_machines machine)
unfolding record_materialised_vector check_vector text_eq parse_sha256_hex Hex.decode to_lower_ascii
materialised-record_vector_example =
    materialised-record_vector bound_tables two_machines two_machines-IsDistinct refl
