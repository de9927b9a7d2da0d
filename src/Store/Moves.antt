-- ===== src/Store/Moves.antt =====
-- Moving a column to another workspace, in crates/wm-core/src/state_store/workspace.rs.
use flowtile_wm.Base.{
  ◌+◌, min, Bool, not, ◌&&◌, ◌||◌, Option, none, some, List, [], ◌∷◌, if◌then◌else◌, ◌==◌,
  eq_option, is_some_and, map_some, and_then, unwrap_or, contains, first, length, position, get_or,
  retain, insert_at, ok_or,
}
use flowtile_wm.Base.Map.{get}
use flowtile_wm.Domain.{
  MonitorId, WorkspaceSetId, WorkspaceId, ColumnId, WindowId, WmState, Workspace, WindowNode,
  is_tiled_layer, user_command, normalize_workspace_set, edit_workspace, edit_window,
  WorkspaceCommandPayload, MoveColumnToWorkspaceTargetPayload,
}
use flowtile_wm.Store.Methods.{
  Action, invalid_event, pure, reads, asks, modify, ◌>>=◌, ◌>>◌, require, require_workspace,
  require_column, require_window, if_some,
}
use flowtile_wm.Store.Queries.{
  focused_window_in_workspace, column_active_window, column_workspace_id,
}
use flowtile_wm.Store.Monitors.{command_monitor_id, step_index}
use flowtile_wm.Store.Overview.{sync_overview_selection}
use flowtile_wm.Store.Workspaces.{
  require_set_id, require_set, require_active_workspace, require_position, activate_workspace,
}

-- The source workspace without the column.
unfoldable pub leave_workspace : ColumnId → List WindowId → Workspace → Workspace
leave_workspace column_id moved w = record w {
  strip = record w.strip {
    ordered_column_ids = retain (λ id. not (id == column_id)) w.strip.ordered_column_ids;
  };
  remembered_focused_column_id =
      if eq_option w.remembered_focused_column_id (some column_id)
      then none
      else w.remembered_focused_column_id;
  remembered_focused_window_id =
      if is_some_and w.remembered_focused_window_id (λ id. contains id moved)
      then none
      else w.remembered_focused_window_id;
}

-- The strip of the target with the column behind the anchor, or else at its end.
unfoldable pub place_after : ColumnId → Option ColumnId → List ColumnId → List ColumnId
place_after column_id anchor ids =
    let others = retain (λ id. not (id == column_id)) ids in
    let after_anchor =
      and_then anchor (λ a. map_some (position (λ id. id == a) others) (λ index. index + 1)) in
    insert_at (min (unwrap_or after_anchor (length others)) (length others)) column_id others

unfoldable pub enter_workspace : ColumnId → Option ColumnId → WindowId → Workspace → Workspace
enter_workspace column_id anchor focus_window_id w = record w {
  strip = record w.strip {
    ordered_column_ids = place_after column_id anchor w.strip.ordered_column_ids;
  };
  remembered_focused_column_id = some column_id;
  remembered_focused_window_id = some focus_window_id;
}

-- The loop that gives the moved windows their new workspace.
unfoldable pub reassign_windows : WorkspaceId → ColumnId → List WindowId → WmState → WmState
reassign_windows workspace_id column_id [] s = s
reassign_windows workspace_id column_id (id ∷ ids) s = reassign_windows workspace_id column_id ids (
    edit_window id
      (λ window. record window { workspace_id = workspace_id; column_id = some column_id }) s)

abbrev require_monitor_of : WorkspaceId → Action MonitorId
require_monitor_of id = require_workspace id >>= λ w. pure w.monitor_id

-- The anchor, if there is one, is a column of the target workspace.
unfoldable pub check_anchor : WorkspaceId → Option ColumnId → Action (Unit {0})
check_anchor target_workspace_id anchor = if_some anchor λ anchor_id. do
  anchor_workspace ← reads (λ s. column_workspace_id s anchor_id)
  require (anchor_workspace == target_workspace_id)
      (invalid_event "move column target anchor must belong to the target workspace")

-- The part of the move that changes the state.
unfoldable pub move_column :
    ColumnId
    → WorkspaceId
    → WorkspaceId
    → Option ColumnId
    → List WindowId
    → WindowId
    → Action (Unit {0})
move_column column_id source_workspace target_workspace anchor moved focus_window_id = do
  require_workspace source_workspace
  modify (edit_workspace source_workspace (leave_workspace column_id moved))
  require_workspace target_workspace
  modify (edit_workspace target_workspace (enter_workspace column_id anchor focus_window_id))
  modify (reassign_windows target_workspace column_id moved)

-- The end of the move: the target is active and both sets are normal.
unfoldable pub settle_move :
    MonitorId → WorkspaceSetId → MonitorId → WorkspaceSetId → WorkspaceId → Action (Unit {0})
settle_move source_monitor source_set target_monitor target_set target_workspace = do
  activate_workspace target_monitor target_workspace user_command
  modify (normalize_workspace_set source_set)
  if target_set == source_set then pure tt else do
    modify (normalize_workspace_set target_set)
    modify (sync_overview_selection source_monitor)

unfoldable pub move_column_to_workspace_target_internal :
    ColumnId → WorkspaceId → Option ColumnId → Action (Option WorkspaceId)
move_column_to_workspace_target_internal column_id target_workspace anchor = do
  column ← require_column column_id
  let moved = column.ordered_window_ids
  source_window ← reads (λ s.
      ok_or (first moved)
        (invalid_event "move column target requires a non-empty managed tiled column"))
  source_workspace ← reads (λ s. column_workspace_id s column_id)
  source_monitor ← require_monitor_of source_workspace
  target_monitor ← require_monitor_of target_workspace
  source_set ← require_set_id source_monitor
  target_set ← require_set_id target_monitor
  if source_workspace == target_workspace && eq_option anchor (some column_id)
      then pure (some target_workspace)
      else do
        check_anchor target_workspace anchor
        focus_window_id ← asks (λ s.
            unwrap_or (and_then (get column_id s.layout.columns) column_active_window)
              source_window)
        move_column column_id source_workspace target_workspace anchor moved focus_window_id
        settle_move source_monitor source_set target_monitor target_set target_workspace
        pure (some target_workspace)

abbrev is_plain_tile : WindowNode → Bool
is_plain_tile window =
    is_tiled_layer window.layer && not (window.is_floating || window.is_fullscreen)

unfoldable pub handle_move_column_to_workspace :
    Bool → WorkspaceCommandPayload → Action (Option WorkspaceId)
handle_move_column_to_workspace forward payload = do
  monitor_id ← reads (λ s. command_monitor_id s payload.monitor_id)
  source_workspace ← require_active_workspace monitor_id
  focused_window_id ← reads (λ s.
      ok_or (focused_window_in_workspace s source_workspace)
        (invalid_event "move column to workspace requires an active managed tiled window"))
  window ← require_window focused_window_id
  column_id ← reads (λ s.
      ok_or window.column_id
        (invalid_event "move column to workspace requires an active managed tiled column"))
  require (is_plain_tile window)
      (invalid_event "move column to workspace requires an active managed tiled window")
  set_id ← require_set_id monitor_id
  modify (normalize_workspace_set set_id)
  set ← require_set monitor_id set_id
  source_index ← require_position source_workspace set.ordered_workspace_ids
  let target_index = step_index forward source_index (length set.ordered_workspace_ids)
  let target_workspace = get_or set.ordered_workspace_ids target_index 0
  if target_workspace == source_workspace
      then pure (some source_workspace)
      else move_column_to_workspace_target_internal column_id target_workspace none

unfoldable pub handle_move_column_to_workspace_target :
    MoveColumnToWorkspaceTargetPayload → Action (Option WorkspaceId)
handle_move_column_to_workspace_target payload =
    move_column_to_workspace_target_internal payload.source_column_id payload.target_workspace_id
      payload.insert_after_column_id
