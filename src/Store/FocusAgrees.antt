-- ===== src/Store/FocusAgrees.antt =====
-- What `set_focus_to_window` of crates/wm-core/src/state_store.rs leaves in the maps of the state.
use flowtile_wm.Base.{◌≡◌, refl, some, map_some}
use flowtile_wm.Base.Map.{get, get-insert_self, get-adjust_self}
use flowtile_wm.Domain.{
  MonitorId, WorkspaceSetId, WorkspaceId, ColumnId, WindowId, WmState, Monitor, WorkspaceSet,
  Workspace, Column, FocusOrigin, workspace_set_id_for_monitor, active_workspace_id_for_monitor,
}
use flowtile_wm.Store.Focus.{focus_window}

-- The focus, the workspace set, the workspace and the column agree on one window.
pub record AgreesOn (m : MonitorId) (k : WorkspaceSetId) (ws : WorkspaceId) (c : ColumnId)
    (w : WindowId) (s : WmState) : Type 0 where
  pub monitor : s.focus.focused_monitor_id ≡ some m
  pub window : s.focus.focused_window_id ≡ some w
  pub column : s.focus.focused_column_id ≡ some c
  pub active : active_workspace_id_for_monitor s m ≡ some ws
  pub set_active : map_some (get k s.workspace_sets) (λ set. set.active_workspace_id) ≡ some ws
  pub column_active :
      map_some (get c s.layout.columns) (λ column. column.active_window_id) ≡ some (some w)
  pub remembered :
      map_some (get ws s.workspaces) (λ workspace. workspace.remembered_focused_window_id)
      ≡ some (some w)

-- Setting the focus to a window of a column, where the monitor, its workspace set, the workspace and
-- the column all exist, makes the focus, the set, the workspace and the column agree on it.
pub focus_window-AgreesOn :
    (m : MonitorId) (ws : WorkspaceId) (w : WindowId) (c : ColumnId) (o : FocusOrigin) (s : WmState)
    (monitor : Monitor) (set : WorkspaceSet) (workspace : Workspace) (column : Column)
    → get m s.monitors ≡ some monitor
    → get monitor.workspace_set_id s.workspace_sets ≡ some set
    → get ws s.workspaces ≡ some workspace
    → get c s.layout.columns ≡ some column
    → AgreesOn m monitor.workspace_set_id ws c w (focus_window m ws w (some c) o s)
unfolding focus_window workspace_set_id_for_monitor active_workspace_id_for_monitor
focus_window-AgreesOn m ws w c o s monitor set workspace column hm hs hw hc = rw hm (record {
  monitor = refl;
  window = refl;
  column = refl;
  active = rw (get-insert_self m ws s.focus.active_workspace_by_monitor) refl;
  set_active = rw (get-adjust_self monitor.workspace_set_id _ s.workspace_sets hs) refl;
  column_active = rw (get-adjust_self c _ s.layout.columns hc) refl;
  remembered = rw (get-adjust_self ws _ s.workspaces hw) refl;
})
