-- ===== src/Store/Discovery.antt =====
-- The handlers of platform events in crates/wm-core/src/state_store.rs: a window is discovered,
-- destroyed, or seen with the focus.
use flowtile_wm.Base.{
  ℕ, Bool, true, false, not, ◌&&◌, Option, none, some, [], ◌∷◌, ◌++◌, if◌then◌else◌, ◌==◌,
  eq_option, is_some, is_some_and, is_none, or_else, and_then, contains, ok_or,
}
use flowtile_wm.Base.Map.{get, insert, remove, contains_key}
use flowtile_wm.Domain.{
  MonitorId, WorkspaceId, ColumnId, WindowId, WmState, Workspace, Column, WindowNode, ColumnMode,
  normal, WidthSemantics, default_width_semantics, WindowLayer, tiled, floating, fullscreen,
  is_tabbed, is_floating_layer, is_fullscreen_layer, reducer_default, allocate_window_id,
  active_workspace_id_for_monitor, workspace_set_id_for_monitor, ensure_tail_workspace,
  edit_workspace, edit_column, WindowPlacement, append_to_focused_column, new_column_after_focus,
  new_column_before_focus, append_to_workspace_end, FocusBehavior, follow_new_window,
  preserve_current_focus, WindowDiscoveredPayload, WindowDestroyedPayload,
  WindowFocusObservedPayload,
}
use flowtile_wm.Store.Methods.{
  Action, unknown_monitor, no_active_workspace, invalid_event, pure, reads, asks, returning, choose,
  modify, ◌>>=◌, ◌>>◌, require, require_workspace, require_column, require_window, if_some,
}
use flowtile_wm.Store.Queries.{
  focused_window_in_workspace, focused_column_in_workspace, discovery_anchor_column_in_workspace,
  fullscreen_restore_index_in_workspace, shows_fullscreen,
}
use flowtile_wm.Store.Focus.{
  activate_in_set, set_focus_to_window, clamp_scroll_offset, reveal_column_in_workspace,
  retarget_focus_after_destroy,
}
use flowtile_wm.Store.Membership.{
  NewColumnRequest, insert_new_column, push_window_to_floating_layer, detach_window_membership,
}

-- `ensure_tail_workspace`, whose result the reducer does not use.
abbrev pub ensure_tail : MonitorId → Action (Unit {0})
ensure_tail monitor_id = modify (λ s. (ensure_tail_workspace monitor_id s).1)

-- What the discovery knows of the workspace before it changes anything.
pub record DiscoveryContext : Type 0 where
  pub workspace_id : WorkspaceId
  pub focused_column_id : Option ColumnId
  pub anchor_column_id : Option ColumnId
  pub restore_index : Option ℕ
  pub keeps_focus : Bool

abbrev preserves_focus : FocusBehavior → Bool
preserves_focus follow_new_window = false
preserves_focus preserve_current_focus = true

unfoldable pub discovery_context : WorkspaceId → FocusBehavior → WmState → DiscoveryContext
discovery_context workspace_id behavior s =
    let focused = focused_window_in_workspace s workspace_id in
    record {
      workspace_id = workspace_id;
      focused_column_id = focused_column_in_workspace s workspace_id;
      anchor_column_id = discovery_anchor_column_in_workspace s workspace_id;
      restore_index = fullscreen_restore_index_in_workspace s workspace_id;
      keeps_focus =
          preserves_focus behavior
          && is_some focused
          && not (is_some_and (and_then focused (λ id. get id s.windows)) shows_fullscreen);
    }

-- The request for a column beside the anchor.
abbrev beside_anchor :
    DiscoveryContext → Bool → Bool → ColumnMode → WidthSemantics → NewColumnRequest
beside_anchor context before keeps mode width = record {
  anchor_column_id = context.anchor_column_id;
  insert_index_override = if is_none context.anchor_column_id then context.restore_index else none;
  before_anchor = before;
  mode = mode;
  width_semantics = width;
  preserve_focus_position = keeps;
}

-- The request for a column at the end of the strip.
abbrev at_end : ColumnMode → WidthSemantics → NewColumnRequest
at_end mode width = record {
  anchor_column_id = none;
  insert_index_override = none;
  before_anchor = false;
  mode = mode;
  width_semantics = width;
  preserve_focus_position = false;
}

abbrev appended : WindowId → Column → Column
appended window_id column = record column {
  ordered_window_ids = column.ordered_window_ids ++ window_id ∷ [];
  active_window_id = or_else column.active_window_id (some window_id);
  tab_selection = if is_tabbed column.mode then some window_id else column.tab_selection;
}

-- The column that a new tiled window goes to.
unfoldable pub place_discovered : DiscoveryContext → WindowId → WindowPlacement → Action ColumnId
place_discovered context window_id append_to_focused_column =
    choose context.focused_column_id
      (insert_new_column context.workspace_id window_id (at_end normal default_width_semantics))
      (λ column_id. do
        require_column column_id
        modify (edit_column column_id (appended window_id))
        pure column_id)
place_discovered context window_id (new_column_after_focus mode width) =
    insert_new_column context.workspace_id window_id (beside_anchor context false false mode width)
place_discovered context window_id (new_column_before_focus mode width) =
    insert_new_column context.workspace_id window_id
      (beside_anchor context true context.keeps_focus mode width)
place_discovered context window_id (append_to_workspace_end mode width) =
    insert_new_column context.workspace_id window_id (at_end mode width)

unfoldable pub discovered_column :
    DiscoveryContext → WindowId → WindowPlacement → WindowLayer → Action (Option ColumnId)
discovered_column context window_id placement tiled = do
  column_id ← place_discovered context window_id placement
  pure (some column_id)
discovered_column context window_id placement floating = do
  push_window_to_floating_layer context.workspace_id window_id
  pure none
discovered_column context window_id placement fullscreen = do
  push_window_to_floating_layer context.workspace_id window_id
  pure none

abbrev discovered_node :
    WindowDiscoveredPayload → WorkspaceId → WindowId → Option ColumnId → WindowNode
discovered_node payload workspace_id window_id column_id = record {
  id = window_id;
  current_hwnd_binding = some payload.hwnd;
  classification = payload.classification;
  layer = payload.layer;
  workspace_id = workspace_id;
  column_id = column_id;
  is_managed = payload.managed;
  is_floating = is_floating_layer payload.layer;
  is_fullscreen = is_fullscreen_layer payload.layer;
  restore_target = none;
  last_known_rect = payload.last_known_rect;
  desired_size = payload.desired_size;
}

-- The new window is stored, and its workspace is the active one of the monitor.
unfoldable pub register_window :
    WindowDiscoveredPayload → WorkspaceId → WindowId → Option ColumnId → WmState → WmState
register_window payload workspace_id window_id column_id s =
    let stored = record s {
      windows =
          insert window_id (discovered_node payload workspace_id window_id column_id) s.windows;
      focus = record s.focus {
        active_workspace_by_monitor =
            insert payload.monitor_id workspace_id s.focus.active_workspace_by_monitor;
      };
    } in
    activate_in_set (workspace_set_id_for_monitor stored payload.monitor_id) workspace_id stored

-- The end of the discovery of a managed window.
unfoldable pub settle_discovered :
    MonitorId → DiscoveryContext → WindowId → Option ColumnId → Action (Option WorkspaceId)
settle_discovered monitor_id context window_id column_id = do
  if context.keeps_focus
      then pure tt
      else set_focus_to_window monitor_id context.workspace_id window_id column_id reducer_default
  ensure_tail monitor_id
  if context.keeps_focus then pure tt else do
    clamp_scroll_offset context.workspace_id
    if_some column_id (reveal_column_in_workspace context.workspace_id)
  pure (some context.workspace_id)

unfoldable pub handle_window_discovered : WindowDiscoveredPayload → Action (Option WorkspaceId)
handle_window_discovered payload = do
  known ← asks (λ s. contains_key payload.monitor_id s.monitors)
  require known (unknown_monitor payload.monitor_id)
  workspace_id ← reads (λ s.
      ok_or (active_workspace_id_for_monitor s payload.monitor_id)
        (no_active_workspace payload.monitor_id))
  context ← asks (discovery_context workspace_id payload.focus_behavior)
  window_id ← returning allocate_window_id
  column_id ←
      if payload.managed
      then discovered_column context window_id payload.placement payload.layer
      else pure none
  modify (register_window payload workspace_id window_id column_id)
  if payload.managed
      then settle_discovered payload.monitor_id context window_id column_id
      else do ensure_tail payload.monitor_id; pure none

-- The workspace forgets the window, and its column if the strip no longer has it.
unfoldable pub forget_window : WindowId → Option ColumnId → Workspace → Workspace
forget_window window_id column_id w =
    let column_gone = not (is_some_and column_id (λ id. contains id w.strip.ordered_column_ids)) in
    record w {
      remembered_focused_window_id =
          if eq_option w.remembered_focused_window_id (some window_id)
          then none
          else w.remembered_focused_window_id;
      remembered_focused_column_id =
          if eq_option w.remembered_focused_column_id column_id && column_gone
          then none
          else w.remembered_focused_column_id;
    }

abbrev pub remove_window : WindowId → WmState → WmState
remove_window id s = record s { windows = remove id s.windows }

unfoldable pub handle_window_destroyed : WindowDestroyedPayload → Action (Option WorkspaceId)
handle_window_destroyed payload = do
  window ← require_window payload.window_id
  workspace ← require_workspace window.workspace_id
  detach_window_membership payload.window_id
  modify (remove_window payload.window_id)
  modify (edit_workspace window.workspace_id (forget_window payload.window_id window.column_id))
  had_focus ← asks (λ s. eq_option s.focus.focused_window_id (some payload.window_id))
  if had_focus then retarget_focus_after_destroy window.workspace_id window.column_id else pure tt
  ensure_tail workspace.monitor_id
  clamp_scroll_offset window.workspace_id
  pure (some window.workspace_id)

unfoldable pub handle_window_focus_observed :
    WindowFocusObservedPayload → Action (Option WorkspaceId)
handle_window_focus_observed payload = do
  known ← asks (λ s. contains_key payload.monitor_id s.monitors)
  require known (unknown_monitor payload.monitor_id)
  window ← require_window payload.window_id
  workspace ← require_workspace window.workspace_id
  require (workspace.monitor_id == payload.monitor_id)
      (invalid_event "focused window monitor does not match workspace monitor")
  set_focus_to_window payload.monitor_id window.workspace_id payload.window_id window.column_id
      payload.focus_origin
  if_some window.column_id (reveal_column_in_workspace window.workspace_id)
  pure (some window.workspace_id)
