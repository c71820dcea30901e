-- ===== src/Model/Lifecycle/Examples.antt =====
-- Runs of the transition tables, and the theorems at concrete states.
use aha.Prelude.{true, ◌≡◌, refl, ◌⊎◌, ◌↔◌}
use aha.Model.Lifecycle.{
  ArchiveState, ArchiveOperation, WorkspaceState, WorkspaceOperation, archive_transition,
  workspace_transition,
}
use aha.Model.Lifecycle.NextAction.{workspace_action_runs, version_action, workspace_rejection_runs}
use aha.Model.Lifecycle.Reach.{
  ArchiveReach, WorkspaceReach, Advances, Recovers, ArchiveReach-Advances, WorkspaceReach-iff,
}

workspace_rejection_runs_example :
    let t = workspace_transition WorkspaceState.absent WorkspaceOperation.repair in
    (t.next_state ≡ WorkspaceState.absent)
    × ((WorkspaceState.absent ≡ WorkspaceState.upgrade_required) × (t.next_action ≡ version_action)
        ⊎ (workspace_action_runs WorkspaceState.absent t.next_action ≡ true))
unfolding workspace_transition
workspace_rejection_runs_example =
    workspace_rejection_runs WorkspaceState.absent WorkspaceOperation.repair refl

first_upload : ArchiveReach ArchiveState.uninitialised ArchiveState.populated
unfolding archive_transition
first_upload =
    ArchiveReach.next (ArchiveReach.next ArchiveReach.here ArchiveOperation.init refl)
      ArchiveOperation.upload refl

ArchiveReach-Advances_example : Advances ArchiveState.uninitialised ArchiveState.populated
ArchiveReach-Advances_example = ArchiveReach-Advances first_upload

WorkspaceReach-iff_example :
    WorkspaceReach WorkspaceState.damaged WorkspaceState.current
    ↔ Recovers WorkspaceState.damaged WorkspaceState.current
WorkspaceReach-iff_example = WorkspaceReach-iff WorkspaceState.damaged WorkspaceState.current
