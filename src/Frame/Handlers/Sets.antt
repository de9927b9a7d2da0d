-- ===== src/Frame/Handlers/Sets.antt =====
-- The frame and the commands on workspaces of crates/wm-core/src/state_store/workspace.rs.
use flowtile_wm.Base.{◌≡◌, refl, Bool, Option, List, [], ◌∷◌}
use flowtile_wm.Domain.{
  MonitorId, WorkspaceSetId, WorkspaceId, ColumnId, WindowId, FocusOrigin, WmState, WorkspaceSet,
  WorkspaceCommandPayload, MoveColumnToWorkspaceTargetPayload, edit_workspace_set,
}
use flowtile_wm.Store.{
  modify, without_focus, set_active_workspace_without_focus, activate_workspace,
  handle_focus_workspace, handle_move_workspace_within_monitor, transfer_workspace,
  move_active_to_monitor, handle_move_workspace_to_adjacent_monitor, reassign_windows, check_anchor,
  move_column, settle_move, move_column_to_workspace_target_internal,
  handle_move_column_to_workspace, handle_move_column_to_workspace_target,
}
use flowtile_wm.Keeps.{Keeps, keeps_rules, Keeps-bind, Keeps-modify}
use flowtile_wm.Frame.Relation.{Frame, Frame-step, Frame-edit_set}
use flowtile_wm.Frame.Edits.{normalize_workspace_set-Frame}
use flowtile_wm.Frame.Handlers.Focus.{activate_in_set-Frame, sync_overview_selection-Frame}
use flowtile_wm.Frame.Handlers.Windows.{focus_rules}

ruleset set_rules = (focus_rules, normalize_workspace_set-Frame, sync_overview_selection-Frame)

module _ {s₀ : WmState} where
  without_focus-Frame :
      (m : MonitorId) (ws : WorkspaceId) (o : FocusOrigin) (s : WmState)
      → Frame s₀ s
      → Frame s₀ (without_focus m ws o s)
  unfolding without_focus
  without_focus-Frame m ws o s h =
      activate_in_set-Frame _ ws _ (Frame-step _ h refl refl refl refl refl refl)

  set_active-Frame :
      (m : MonitorId) (ws : WorkspaceId) (o : FocusOrigin)
      → Keeps (Frame s₀) (set_active_workspace_without_focus m ws o)
  unfolding set_active_workspace_without_focus
  set_active-Frame m ws o = search (keeps_rules, without_focus-Frame) depth 7

  activate-Frame :
      (m : MonitorId) (ws : WorkspaceId) (o : FocusOrigin)
      → Keeps (Frame s₀) (activate_workspace m ws o)
  unfolding activate_workspace
  activate-Frame m ws o = search (set_rules, set_active-Frame) depth 9

  pub focus_workspace-Frame :
      (b : Bool) (p : WorkspaceCommandPayload) → Keeps (Frame s₀) (handle_focus_workspace b p)
  unfolding handle_focus_workspace
  focus_workspace-Frame b p = search (set_rules, activate-Frame) depth 14

  -- Reordering the list of a set keeps its monitor.
  edit_set-Frame :
      (k : WorkspaceSetId) (ids : WorkspaceSet → List WorkspaceId)
      (active : WorkspaceSet → WorkspaceId) (s : WmState)
      → Frame s₀ s
      → Frame s₀ (
          edit_workspace_set k
            (λ set. record set {
              ordered_workspace_ids = ids set;
              active_workspace_id = active set;
            })
            s)
  edit_set-Frame k ids active s h = Frame-edit_set k _ (λ set. refl) h

  pub move_within-Frame :
      (b : Bool) (p : WorkspaceCommandPayload)
      → Keeps (Frame s₀) (handle_move_workspace_within_monitor b p)
  unfolding handle_move_workspace_within_monitor
  move_within-Frame b p = search (set_rules, edit_set-Frame) depth 14

  modify_set-Frame :
      (k : WorkspaceSetId) (f : WorkspaceSet → WorkspaceSet)
      → ((set : WorkspaceSet) → (f set).monitor_id ≡ set.monitor_id)
      → Keeps (Frame s₀) (modify (edit_workspace_set k f))
  modify_set-Frame k f same = Keeps-modify _ λ s h. Frame-edit_set k f same h

  transfer-Frame :
      (m : MonitorId) (k : WorkspaceSetId) (n : MonitorId) (l : WorkspaceSetId) (ws : WorkspaceId)
      → Keeps (Frame s₀) (transfer_workspace m k n l ws)
  unfolding transfer_workspace
  transfer-Frame m k n l ws = Keeps-bind _ _ (search keeps_rules depth 5) λ _.
      Keeps-bind _ _ (modify_set-Frame k _ (λ set. refl)) λ _.
        Keeps-bind _ _ (search keeps_rules depth 5) λ target.
          Keeps-bind _ _ (search keeps_rules depth 5) λ index.
            Keeps-bind _ _ (search keeps_rules depth 5) λ _.
              Keeps-bind _ _ (modify_set-Frame l _ (λ set. refl)) λ _. search focus_rules depth 7

  move_active-Frame : (m n : MonitorId) → Keeps (Frame s₀) (move_active_to_monitor m n)
  unfolding move_active_to_monitor
  move_active-Frame m n = search (set_rules, transfer-Frame, activate-Frame) depth 14

  pub move_to_monitor-Frame :
      (b : Bool) (p : WorkspaceCommandPayload)
      → Keeps (Frame s₀) (handle_move_workspace_to_adjacent_monitor b p)
  unfolding handle_move_workspace_to_adjacent_monitor
  move_to_monitor-Frame b p = search (keeps_rules, move_active-Frame) depth 7

  reassign-Frame :
      (ws : WorkspaceId) (c : ColumnId) (ids : List WindowId) (s : WmState)
      → Frame s₀ s
      → Frame s₀ (reassign_windows ws c ids s)
  unfolding reassign_windows
  reassign-Frame ws c [] s h = h
  reassign-Frame ws c (id ∷ ids) s h =
      reassign-Frame ws c ids _ (Frame-step _ h refl refl refl refl refl refl)

  check_anchor-Frame :
      (ws : WorkspaceId) (a : Option ColumnId) → Keeps (Frame s₀) (check_anchor ws a)
  unfolding check_anchor
  check_anchor-Frame ws a = search keeps_rules depth 7

  move_column-Frame :
      (c : ColumnId) (ws wt : WorkspaceId) (a : Option ColumnId) (ids : List WindowId)
      (w : WindowId)
      → Keeps (Frame s₀) (move_column c ws wt a ids w)
  unfolding move_column
  move_column-Frame c ws wt a ids w = search (focus_rules, reassign-Frame) depth 9

  settle_move-Frame :
      (m : MonitorId) (k : WorkspaceSetId) (n : MonitorId) (l : WorkspaceSetId) (ws : WorkspaceId)
      → Keeps (Frame s₀) (settle_move m k n l ws)
  unfolding settle_move
  settle_move-Frame m k n l ws = search (set_rules, activate-Frame) depth 9

  move_internal-Frame :
      (c : ColumnId) (ws : WorkspaceId) (a : Option ColumnId)
      → Keeps (Frame s₀) (move_column_to_workspace_target_internal c ws a)
  unfolding move_column_to_workspace_target_internal
  move_internal-Frame c ws a =
      search (keeps_rules, check_anchor-Frame, move_column-Frame, settle_move-Frame) depth 16

  pub move_column_to_workspace-Frame :
      (b : Bool) (p : WorkspaceCommandPayload)
      → Keeps (Frame s₀) (handle_move_column_to_workspace b p)
  unfolding handle_move_column_to_workspace
  move_column_to_workspace-Frame b p = search (set_rules, move_internal-Frame) depth 16

  pub move_column_to_target-Frame :
      (p : MoveColumnToWorkspaceTargetPayload)
      → Keeps (Frame s₀) (handle_move_column_to_workspace_target p)
  unfolding handle_move_column_to_workspace_target
  move_column_to_target-Frame p = move_internal-Frame _ _ _
