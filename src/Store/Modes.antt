-- ===== src/Store/Modes.antt =====
-- crates/wm-core/src/state_store/window_modes.rs.
use flowtile_wm.Base.{
  ℕ, ℤ, pos, Bool, false, Option, none, some, if◌then◌else◌, ◌==◌, unwrap_or, first,
}
use flowtile_wm.Base.Words.{capped_i32, sat_sub_i32}
use flowtile_wm.Domain.{
  MonitorId, WorkspaceId, ColumnId, WindowId, WmState, Column, WindowNode, RestoreTarget, normal,
  tabbed, is_tabbed, restored, maximized, WindowLayer, tiled, floating, fullscreen,
  is_floating_layer, is_fullscreen_layer, user_command, edit_column, edit_window,
  StripScrollPayload, WindowCommandPayload,
}
use flowtile_wm.Store.Methods.{
  Action, pure, reads, asks, modify, ◌>>=◌, ◌>>◌, require_workspace, require_column, require_window,
  if_some,
}
use flowtile_wm.Store.Queries.{focused_column_in_workspace, column_index_in_workspace}
use flowtile_wm.Store.Monitors.{active_workspace_id_for_commands, command_window_id}
use flowtile_wm.Store.Focus.{
  set_focus_to_window, apply_scroll_delta, clamp_scroll_offset, reveal_column_in_workspace,
}
use flowtile_wm.Store.Membership.{
  push_window_to_floating_layer, detach_window_membership, restore_window_to_target,
}

-- The `direction` argument is -1 or 1, and multiplies the step.
pub data Direction : Type 0 where
  backwards forwards : Direction

abbrev pub signed_step : Direction → ℕ → ℤ
signed_step backwards step = sat_sub_i32 (pos 0) (capped_i32 step)
signed_step forwards step = capped_i32 step

unfoldable pub handle_strip_scroll : Direction → StripScrollPayload → Action (Option WorkspaceId)
handle_strip_scroll direction payload = do
  workspace_id ← reads active_workspace_id_for_commands
  step ←
      asks (λ s. if payload.step == 0 then s.config_projection.strip_scroll_step else payload.step)
  apply_scroll_delta workspace_id (signed_step direction step)
  pure (some workspace_id)

-- Where a window without a restore target returns to.
abbrev default_restore_target : WindowNode → WmState → RestoreTarget
default_restore_target window s = record {
  workspace_id = window.workspace_id;
  column_id = focused_column_in_workspace s window.workspace_id;
  column_index = column_index_in_workspace s window.workspace_id window.column_id;
  layer = tiled;
}

-- What is remembered of a window that leaves its place.
abbrev current_place : WindowNode → WmState → RestoreTarget
current_place window s = record {
  workspace_id = window.workspace_id;
  column_id = window.column_id;
  column_index = column_index_in_workspace s window.workspace_id window.column_id;
  layer = window.layer;
}

abbrev pub restored_window : RestoreTarget → Option ColumnId → Bool → WindowNode → WindowNode
restored_window target column_id floats window = record window {
  layer = target.layer;
  column_id = column_id;
  is_floating = floats;
  is_fullscreen = false;
  restore_target = none;
}

-- The window goes back to where it came from. `floats` is what the command writes to
-- `is_floating`, from the layer of the target.
unfoldable pub restore_from_layer :
    (WindowLayer → Bool) → WindowId → WindowNode → MonitorId → Action (Unit {0})
restore_from_layer floats window_id window monitor_id = do
  target ← asks (λ s. unwrap_or window.restore_target (default_restore_target window s))
  detach_window_membership window_id
  mode ← asks (λ s. s.config_projection.default_column_mode)
  width ← asks (λ s. s.config_projection.default_column_width)
  column_id ← restore_window_to_target window_id target mode width
  require_window window_id
  modify (edit_window window_id (restored_window target column_id (floats target.layer)))
  set_focus_to_window monitor_id window.workspace_id window_id column_id user_command
  if_some column_id (reveal_column_in_workspace window.workspace_id)

abbrev pub lifted_window : WindowLayer → RestoreTarget → WindowNode → WindowNode
lifted_window layer target window = record window {
  layer = layer;
  column_id = none;
  is_floating = is_floating_layer layer;
  is_fullscreen = is_fullscreen_layer layer;
  restore_target = some target;
}

-- The window leaves its place for the floating or the fullscreen layer.
unfoldable pub lift_to_layer : WindowLayer → WindowId → WindowNode → MonitorId → Action (Unit {0})
lift_to_layer layer window_id window monitor_id = do
  target ← asks (current_place window)
  detach_window_membership window_id
  push_window_to_floating_layer window.workspace_id window_id
  require_window window_id
  modify (edit_window window_id (lifted_window layer target))
  set_focus_to_window monitor_id window.workspace_id window_id none user_command

unfoldable pub handle_toggle_floating : WindowCommandPayload → Action (Option WorkspaceId)
handle_toggle_floating payload = do
  window_id ← reads (λ s. command_window_id s payload.window_id)
  window ← require_window window_id
  workspace ← require_workspace window.workspace_id
  if is_floating_layer window.layer
      then restore_from_layer (λ layer. false) window_id window workspace.monitor_id
      else lift_to_layer floating window_id window workspace.monitor_id
  clamp_scroll_offset window.workspace_id
  pure (some window.workspace_id)

unfoldable pub handle_toggle_fullscreen : WindowCommandPayload → Action (Option WorkspaceId)
handle_toggle_fullscreen payload = do
  window_id ← reads (λ s. command_window_id s payload.window_id)
  window ← require_window window_id
  workspace ← require_workspace window.workspace_id
  if is_fullscreen_layer window.layer
      then restore_from_layer is_floating_layer window_id window workspace.monitor_id
      else lift_to_layer fullscreen window_id window workspace.monitor_id
  clamp_scroll_offset window.workspace_id
  pure (some window.workspace_id)

unfoldable pub toggle_tabbed : WindowId → Column → Column
toggle_tabbed window_id column =
    if is_tabbed column.mode
    then record column {
      mode = normal;
      tab_selection = first column.ordered_window_ids;
      active_window_id = some window_id;
    }
    else record column {
      mode = tabbed;
      tab_selection = some window_id;
      active_window_id = some window_id;
    }

unfoldable pub toggle_maximized : Column → Column
toggle_maximized column = record column {
  maximized_state = elim column.maximized_state [ restored ↦ maximized | maximized ↦ restored ];
}

-- A command that changes the column of a window and then reveals it. A window without a column is
-- left as it is.
unfoldable pub change_column :
    (WindowId → Column → Column) → WindowCommandPayload → Action (Option WorkspaceId)
change_column f payload = do
  window_id ← reads (λ s. command_window_id s payload.window_id)
  window ← require_window window_id
  if_some window.column_id λ column_id. do
    require_column column_id
    modify (edit_column column_id (f window_id))
    reveal_column_in_workspace window.workspace_id column_id
  pure (some window.workspace_id)

unfoldable pub handle_toggle_tabbed : WindowCommandPayload → Action (Option WorkspaceId)
handle_toggle_tabbed = change_column toggle_tabbed

unfoldable pub handle_toggle_maximized : WindowCommandPayload → Action (Option WorkspaceId)
handle_toggle_maximized = change_column (λ window_id. toggle_maximized)
