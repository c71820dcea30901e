-- ===== src/Model/Lifecycle/NextAction.antt =====
-- The one next action that a rejection names, for internal/model/lifecycle.go.
use text.Mathlib.Text.{◌==◌}
use aha.Prelude.{
  Bool, true, false, ◌&&◌, String, List, [], ◌∷◌, ◌≡◌, ◌⊎◌, Option, none, some, if◌then◌else◌,
  arith,
}
use aha.Model.Lifecycle.{
  Action, ArchiveState, ArchiveOperation, WorkspaceState, WorkspaceOperation, archive_transition,
  workspace_transition,
}

-- The command line of an action, read back as the Archive operation that it asks for.
archive_operation_of : Action → Option ArchiveOperation
archive_operation_of a = words a.args
  where
    words : List String → Option ArchiveOperation
    words (noun ∷ verb ∷ rest) =
        if noun == "archive" && verb == "status"
        then some ArchiveOperation.status
        else if noun == "archive" && verb == "init"
        then some ArchiveOperation.init
        else if noun == "archive" && verb == "verify"
        then some ArchiveOperation.verify
        else none
    words _ = none

workspace_operation_of : Action → Option WorkspaceOperation
workspace_operation_of a = words a.args
  where
    words : List String → Option WorkspaceOperation
    words (noun ∷ verb ∷ rest) =
        if noun == "workspace" && verb == "status"
        then some WorkspaceOperation.status
        else if noun == "workspace" && verb == "repair"
        then some WorkspaceOperation.repair
        else if noun == "archive" && verb == "download"
        then some WorkspaceOperation.download
        else none
    words _ = none

-- Whether the named operation, if there is one, is allowed in the state.
pub archive_action_runs : ArchiveState → Action → Bool
unfolding archive_operation_of
archive_action_runs s a = elim (archive_operation_of a) [
  | none ↦ false
  | some op ↦ (archive_transition s op).is_allowed
]

pub workspace_action_runs : WorkspaceState → Action → Bool
unfolding workspace_operation_of
workspace_action_runs s a = elim (workspace_operation_of a) [
  | none ↦ false
  | some op ↦ (workspace_transition s op).is_allowed
]

abbrev pub version_action : Action
version_action = record { command = "aha"; args = "version" ∷ "--json" ∷ [] }

-- A rejected Archive operation leaves the state as it was and names a next command: in
-- `upgrade_required` it is `aha version --json`, and in every other state it asks for an Archive
-- operation that is allowed in that state.
pub archive_rejection_runs :
    (s : ArchiveState) (op : ArchiveOperation)
    → (archive_transition s op).is_allowed ≡ false
    → let t = archive_transition s op in
      (t.next_state ≡ s)
      × ((s ≡ ArchiveState.upgrade_required) × (t.next_action ≡ version_action)
          ⊎ (archive_action_runs s t.next_action ≡ true))
unfolding archive_transition archive_action_runs
archive_rejection_runs ArchiveState.upgrade_required ArchiveOperation.status h = ground arith
archive_rejection_runs s op h = ground arith

-- A rejected Workspace operation leaves the state as it was and names a next command: in
-- `upgrade_required` it is `aha version --json`, and in every other state it asks for an operation
-- that is allowed on that Workspace.
pub workspace_rejection_runs :
    (s : WorkspaceState) (op : WorkspaceOperation)
    → (workspace_transition s op).is_allowed ≡ false
    → let t = workspace_transition s op in
      (t.next_state ≡ s)
      × ((s ≡ WorkspaceState.upgrade_required) × (t.next_action ≡ version_action)
          ⊎ (workspace_action_runs s t.next_action ≡ true))
unfolding workspace_transition workspace_action_runs
workspace_rejection_runs WorkspaceState.upgrade_required WorkspaceOperation.status h = ground arith
workspace_rejection_runs s op h = ground arith
