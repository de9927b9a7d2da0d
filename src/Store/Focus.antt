-- ===== src/Store/Focus.antt =====
-- Focus and scrolling, in crates/wm-core/src/state_store.rs.
use flowtile_wm.Base.{ℤ, pos, Option, none, some, if◌then◌else◌}
use flowtile_wm.Base.Map.{insert}
use flowtile_wm.Base.Words.{sat_add_i32, clamp_i32}
use flowtile_wm.Domain.{
  MonitorId, WorkspaceSetId, WorkspaceId, ColumnId, WindowId, WmState, Column, FocusOrigin,
  reducer_default, is_tabbed, edit_workspace, edit_workspace_set, edit_column,
  workspace_set_id_for_monitor,
}
use flowtile_wm.Store.Methods.{
  Action, reads, asks, choose, modify, ◌>>=◌, ◌>>◌, require_workspace, if_some,
}
use flowtile_wm.Store.Queries.{next_focus_after_destroy}
use flowtile_wm.Store.Widths.{max_scroll_offset, reveal_delta}

-- The passage that makes a workspace the active one of its monitor's set.
abbrev pub activate_in_set : Option WorkspaceSetId → WorkspaceId → WmState → WmState
activate_in_set none workspace_id s = s
activate_in_set (some set_id) workspace_id s =
    edit_workspace_set set_id (λ set. record set { active_workspace_id = workspace_id }) s

abbrev pub select_in_column : WindowId → Column → Column
select_in_column window_id column = record column {
  active_window_id = some window_id;
  tab_selection = if is_tabbed column.mode then some window_id else column.tab_selection;
}

abbrev pub focus_in_column : Option ColumnId → WindowId → WmState → WmState
focus_in_column none window_id s = s
focus_in_column (some column_id) window_id s = edit_column column_id (select_in_column window_id) s

-- `set_focus_to_window`, which never fails.
unfoldable pub focus_window :
    MonitorId → WorkspaceId → WindowId → Option ColumnId → FocusOrigin → WmState → WmState
focus_window monitor_id workspace_id window_id column_id origin s =
    let focused = record s {
      focus = record s.focus {
        focused_monitor_id = some monitor_id;
        focused_window_id = some window_id;
        focused_column_id = column_id;
        focus_origin = origin;
        active_workspace_by_monitor =
            insert monitor_id workspace_id s.focus.active_workspace_by_monitor;
      };
    } in
    let activated =
      activate_in_set (workspace_set_id_for_monitor focused monitor_id) workspace_id focused in
    edit_workspace workspace_id
      (λ w. record w {
        remembered_focused_window_id = some window_id;
        remembered_focused_column_id = column_id;
      })
      (focus_in_column column_id window_id activated)

unfoldable pub set_focus_to_window :
    MonitorId → WorkspaceId → WindowId → Option ColumnId → FocusOrigin → Action (Unit {0})
set_focus_to_window monitor_id workspace_id window_id column_id origin =
    modify (focus_window monitor_id workspace_id window_id column_id origin)

abbrev pub edit_scroll : WorkspaceId → (ℤ → ℤ) → WmState → WmState
edit_scroll workspace_id f =
    edit_workspace workspace_id
      (λ w. record w { strip = record w.strip { scroll_offset = f w.strip.scroll_offset } })

unfoldable pub apply_scroll_delta : WorkspaceId → ℤ → Action (Unit {0})
apply_scroll_delta workspace_id delta = do
  max_offset ← reads (λ s. max_scroll_offset s workspace_id)
  require_workspace workspace_id
  modify
      (edit_scroll workspace_id (λ offset. clamp_i32 (sat_add_i32 offset delta) (pos 0) max_offset))

unfoldable pub clamp_scroll_offset : WorkspaceId → Action (Unit {0})
clamp_scroll_offset workspace_id = do
  max_offset ← reads (λ s. max_scroll_offset s workspace_id)
  require_workspace workspace_id
  modify (edit_scroll workspace_id (λ offset. clamp_i32 offset (pos 0) max_offset))

unfoldable pub reveal_column_in_workspace : WorkspaceId → ColumnId → Action (Unit {0})
reveal_column_in_workspace workspace_id column_id = do
  delta ← reads (λ s. reveal_delta s workspace_id column_id)
  if_some delta (apply_scroll_delta workspace_id)

-- The focus of a monitor without a window.
abbrev pub clear_focus : MonitorId → FocusOrigin → WmState → WmState
clear_focus monitor_id origin s = record s {
  focus = record s.focus {
    focused_monitor_id = some monitor_id;
    focus_origin = origin;
    focused_window_id = none;
    focused_column_id = none;
  };
}

unfoldable pub retarget_focus_after_destroy : WorkspaceId → Option ColumnId → Action (Unit {0})
retarget_focus_after_destroy workspace_id preferred = do
  workspace ← require_workspace workspace_id
  next ← asks (λ s. next_focus_after_destroy s workspace preferred)
  choose next (modify (clear_focus workspace.monitor_id reducer_default)) λ target. do
    set_focus_to_window workspace.monitor_id workspace_id target.0 target.1 reducer_default
    if_some target.1 (reveal_column_in_workspace workspace_id)
