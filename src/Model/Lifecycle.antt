-- ===== src/Model/Lifecycle.antt =====
-- internal/model/lifecycle.go: which operation an Archive or a Workspace in a given state allows.
-- The string enumerations are data types; the source's argument lists are lists of texts.
pub mod Reach
pub mod NextAction
mod Examples
use aha.Prelude.{Bool, true, false, String, List, [], ◌∷◌}

pub record Action : Type 0 where
  pub command : String
  pub args : List String

pub data ArchiveState : Type 0 where
  invalid_address invalid_configuration unreachable uninitialised : ArchiveState
  empty populated damaged upgrade_required : ArchiveState

pub data ArchiveOperation : Type 0 where
  status init set_default upload download verify : ArchiveOperation

pub data WorkspaceState : Type 0 where
  absent current behind damaged archive_mismatch : WorkspaceState
  invalid_destination upgrade_required : WorkspaceState

pub data WorkspaceOperation : Type 0 where
  status set_default download verify repair conflicts : WorkspaceOperation

pub record Transition (S : Type 0) : Type 0 where
  pub is_allowed : Bool
  pub next_state : S
  pub next_action : Action

-- the zero value of `Action`
abbrev pub no_action : Action
no_action = record { command = ""; args = [] }

abbrev pub allowed : {S : Type 0} → S → Transition S
allowed next = record { is_allowed = true; next_state = next; next_action = no_action }

abbrev pub rejected : {S : Type 0} → S → List String → Transition S
rejected state args = record {
  is_allowed = false;
  next_state = state;
  next_action = record { command = "aha"; args = args };
}

-- the `switch` behind the test for `status`; the last clauses are the final `return`
archive_switch : ArchiveState → ArchiveOperation → Transition ArchiveState
archive_switch invalid_address op =
    rejected ArchiveState.invalid_address ("archive" ∷ "status" ∷ [])
archive_switch invalid_configuration op =
    rejected ArchiveState.invalid_configuration ("archive" ∷ "status" ∷ [])
archive_switch unreachable op = rejected ArchiveState.unreachable ("archive" ∷ "status" ∷ [])
archive_switch uninitialised ArchiveOperation.init = allowed ArchiveState.empty
archive_switch uninitialised _ = rejected ArchiveState.uninitialised ("archive" ∷ "init" ∷ [])
archive_switch empty ArchiveOperation.set_default = allowed ArchiveState.empty
archive_switch empty ArchiveOperation.download = allowed ArchiveState.empty
archive_switch empty ArchiveOperation.verify = allowed ArchiveState.empty
archive_switch empty ArchiveOperation.upload = allowed ArchiveState.populated
archive_switch populated ArchiveOperation.set_default = allowed ArchiveState.populated
archive_switch populated ArchiveOperation.download = allowed ArchiveState.populated
archive_switch populated ArchiveOperation.verify = allowed ArchiveState.populated
archive_switch populated ArchiveOperation.upload = allowed ArchiveState.populated
archive_switch ArchiveState.damaged ArchiveOperation.verify = allowed ArchiveState.damaged
archive_switch ArchiveState.damaged _ =
    rejected ArchiveState.damaged ("archive" ∷ "verify" ∷ "--deep" ∷ [])
archive_switch ArchiveState.upgrade_required op =
    rejected ArchiveState.upgrade_required ("version" ∷ "--json" ∷ [])
archive_switch state _ = rejected state ("archive" ∷ "status" ∷ [])

unfoldable pub archive_transition : ArchiveState → ArchiveOperation → Transition ArchiveState
unfolding archive_switch
archive_transition state ArchiveOperation.status = allowed state
archive_transition state op = archive_switch state op

workspace_switch : WorkspaceState → WorkspaceOperation → Transition WorkspaceState
workspace_switch absent WorkspaceOperation.set_default = allowed absent
workspace_switch absent WorkspaceOperation.download = allowed current
workspace_switch absent _ = rejected absent ("archive" ∷ "download" ∷ [])
workspace_switch current WorkspaceOperation.set_default = allowed current
workspace_switch current WorkspaceOperation.verify = allowed current
workspace_switch current WorkspaceOperation.conflicts = allowed current
workspace_switch current WorkspaceOperation.download = allowed current
workspace_switch behind WorkspaceOperation.set_default = allowed behind
workspace_switch behind WorkspaceOperation.verify = allowed behind
workspace_switch behind WorkspaceOperation.conflicts = allowed behind
workspace_switch behind WorkspaceOperation.download = allowed current
workspace_switch WorkspaceState.damaged WorkspaceOperation.set_default =
    allowed WorkspaceState.damaged
workspace_switch WorkspaceState.damaged WorkspaceOperation.verify = allowed WorkspaceState.damaged
workspace_switch WorkspaceState.damaged WorkspaceOperation.conflicts =
    allowed WorkspaceState.damaged
workspace_switch WorkspaceState.damaged repair = allowed current
workspace_switch WorkspaceState.damaged _ =
    rejected WorkspaceState.damaged ("workspace" ∷ "repair" ∷ "--backup" ∷ [])
workspace_switch WorkspaceState.upgrade_required op =
    rejected WorkspaceState.upgrade_required ("version" ∷ "--json" ∷ [])
workspace_switch state _ = rejected state ("workspace" ∷ "status" ∷ [])

unfoldable pub workspace_transition :
    WorkspaceState → WorkspaceOperation → Transition WorkspaceState
unfolding workspace_switch
workspace_transition state WorkspaceOperation.status = allowed state
workspace_transition state op = workspace_switch state op

unfoldable pub all_archive_states : List ArchiveState
all_archive_states =
    invalid_address ∷ invalid_configuration ∷ unreachable ∷ uninitialised ∷ empty ∷ populated
    ∷ ArchiveState.damaged ∷ ArchiveState.upgrade_required ∷ []

unfoldable pub all_workspace_states : List WorkspaceState
all_workspace_states =
    absent ∷ current ∷ behind ∷ WorkspaceState.damaged ∷ archive_mismatch ∷ invalid_destination
    ∷ WorkspaceState.upgrade_required ∷ []
