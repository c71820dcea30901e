-- ===== src/Model/Lifecycle/Reach.antt =====
-- The states that allowed operations lead to, for internal/model/lifecycle.go.
use aha.Prelude.{ℕ, ◌<◌, Bool, true, false, ◌≡◌, refl, ◌⊎◌, ◌↔◌, inl, inr, arith, subst, sym}
use aha.Model.Lifecycle.{
  ArchiveState, ArchiveOperation, WorkspaceState, WorkspaceOperation, archive_transition,
  workspace_transition,
}

-- Any number of allowed operations.
pub data ArchiveReach (s : ArchiveState) : ArchiveState → Type 0 where
  here : ArchiveReach s s
  next :
      {t : ArchiveState}
      → ArchiveReach s t
      → (op : ArchiveOperation) → (archive_transition t op).is_allowed ≡ true
      → ArchiveReach s (archive_transition t op).next_state

pub data WorkspaceReach (s : WorkspaceState) : WorkspaceState → Type 0 where
  here : WorkspaceReach s s
  next :
      {t : WorkspaceState}
      → WorkspaceReach s t
      → (op : WorkspaceOperation) → (workspace_transition t op).is_allowed ≡ true
      → WorkspaceReach s (workspace_transition t op).next_state

-- How far initialisation has come; every state that no operation leaves is at the end.
abbrev pub stage : ArchiveState → ℕ
stage ArchiveState.uninitialised = 0
stage ArchiveState.empty = 1
stage _ = 2

abbrev pub IsInitialised : ArchiveState → Type 0
IsInitialised s = (s ≡ ArchiveState.empty) ⊎ (s ≡ ArchiveState.populated)

abbrev pub Advances : ArchiveState → ArchiveState → Type 0
Advances s t = (s ≡ t) ⊎ (stage s < stage t) × IsInitialised t

next-Advances :
    (s t : ArchiveState) (op : ArchiveOperation)
    → Advances s t
    → (archive_transition t op).is_allowed ≡ true
    → Advances s (archive_transition t op).next_state
unfolding archive_transition
next-Advances s t op h a = ground arith

-- Allowed operations only advance an Archive: whatever they lead to is the state itself, or `empty`
-- or `populated` at a later stage. None undoes an initialisation, empties a populated Archive,
-- damages one, or leaves any of the failed states.
pub ArchiveReach-Advances : {s t : ArchiveState} → ArchiveReach s t → Advances s t
ArchiveReach-Advances ArchiveReach.here = inl refl
ArchiveReach-Advances {s} (ArchiveReach.next {t = u} r op a) =
    next-Advances s u op (ArchiveReach-Advances r) a

-- The states that a download or a repair makes current.
abbrev pub is_recoverable : WorkspaceState → Bool
is_recoverable WorkspaceState.absent = true
is_recoverable WorkspaceState.current = true
is_recoverable WorkspaceState.behind = true
is_recoverable WorkspaceState.damaged = true
is_recoverable _ = false

abbrev pub Recovers : WorkspaceState → WorkspaceState → Type 0
Recovers s t = (t ≡ s) ⊎ (is_recoverable s ≡ true) × (t ≡ WorkspaceState.current)

next-Recovers :
    (s t : WorkspaceState) (op : WorkspaceOperation)
    → Recovers s t
    → (workspace_transition t op).is_allowed ≡ true
    → Recovers s (workspace_transition t op).next_state
unfolding workspace_transition
next-Recovers s t op h a = ground arith

WorkspaceReach-Recovers : {s t : WorkspaceState} → WorkspaceReach s t → Recovers s t
WorkspaceReach-Recovers WorkspaceReach.here = inl refl
WorkspaceReach-Recovers {s} (WorkspaceReach.next {t = u} r op a) =
    next-Recovers s u op (WorkspaceReach-Recovers r) a

reach_current :
    (s : WorkspaceState) → is_recoverable s ≡ true → WorkspaceReach s WorkspaceState.current
unfolding workspace_transition
reach_current WorkspaceState.absent h =
    WorkspaceReach.next WorkspaceReach.here WorkspaceOperation.download refl
reach_current WorkspaceState.current h = WorkspaceReach.here
reach_current WorkspaceState.behind h =
    WorkspaceReach.next WorkspaceReach.here WorkspaceOperation.download refl
reach_current WorkspaceState.damaged h =
    WorkspaceReach.next WorkspaceReach.here WorkspaceOperation.repair refl
reach_current WorkspaceState.archive_mismatch h = cc
reach_current WorkspaceState.invalid_destination h = cc
reach_current WorkspaceState.upgrade_required h = cc

-- A Workspace can be brought to another state by allowed operations exactly when that state is
-- `current` and it is absent, behind or damaged; one that is bound to another Archive, that stands
-- at an invalid destination or that needs an upgrade stays as it is.
pub WorkspaceReach-iff : (s t : WorkspaceState) → WorkspaceReach s t ↔ Recovers s t
WorkspaceReach-iff s t = (
  WorkspaceReach-Recovers,
  λ h. elim h [
    | inl e ↦ subst (WorkspaceReach s) (sym e) WorkspaceReach.here
    | inr r ↦ subst (WorkspaceReach s) (sym r.1) (reach_current s r.0)
  ],
)
