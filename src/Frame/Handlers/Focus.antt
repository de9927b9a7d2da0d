-- ===== src/Frame/Handlers/Focus.antt =====
-- The frame and the methods on focus, scrolling, widths and the overview in crates/wm-
-- core/src/state_store.rs and its children.
use flowtile_wm.Base.{
  ℤ, refl, Bool, true, false, ◌&&◌, Option, none, some, if◌then◌else◌, eq_option,
}
use flowtile_wm.Base.Map.{insert}
use flowtile_wm.Domain.{
  MonitorId, WorkspaceSetId, WorkspaceId, ColumnId, WindowId, FocusOrigin, WmState,
  workspace_set_id_for_monitor, OverviewCommandPayload,
}
use flowtile_wm.Store.{
  apply_scroll_delta, clamp_scroll_offset, reveal_column_in_workspace, set_focus_to_window,
  focus_window, activate_in_set, focus_in_column, retarget_focus_after_destroy,
  handle_open_overview, handle_close_overview, handle_toggle_overview, open_overview_for_monitor,
  close_overview, sync_overview_selection,
}
use flowtile_wm.Keeps.{Keeps, keeps_rules}
use flowtile_wm.Frame.Relation.{Frame, Frame-step, Frame-edit_set}

module _ {s₀ : WmState} where
  pub apply_scroll_delta-Frame :
      (w : WorkspaceId) (d : ℤ) → Keeps (Frame s₀) (apply_scroll_delta w d)
  unfolding apply_scroll_delta
  apply_scroll_delta-Frame w d = search (keeps_rules, Frame-step)

  pub clamp_scroll_offset-Frame : (w : WorkspaceId) → Keeps (Frame s₀) (clamp_scroll_offset w)
  unfolding clamp_scroll_offset
  clamp_scroll_offset-Frame w = search (keeps_rules, Frame-step)

  pub reveal-Frame :
      (w : WorkspaceId) (c : ColumnId) → Keeps (Frame s₀) (reveal_column_in_workspace w c)
  unfolding reveal_column_in_workspace
  reveal-Frame w c = search (keeps_rules, apply_scroll_delta-Frame)

  pub activate_in_set-Frame :
      (o : Option WorkspaceSetId) (w : WorkspaceId) (s : WmState)
      → Frame s₀ s
      → Frame s₀ (activate_in_set o w s)
  activate_in_set-Frame none w s h = h
  activate_in_set-Frame (some k) w s h = Frame-edit_set k _ (λ set. refl) h

  focus_in_column-Frame :
      (o : Option ColumnId) (w : WindowId) (s : WmState)
      → Frame s₀ s
      → Frame s₀ (focus_in_column o w s)
  focus_in_column-Frame none w s h = h
  focus_in_column-Frame (some c) w s h = Frame-step _ h refl refl refl refl refl refl

  focus_window-Frame :
      (m : MonitorId) (ws : WorkspaceId) (w : WindowId) (c : Option ColumnId) (o : FocusOrigin)
      (s : WmState)
      → Frame s₀ s
      → Frame s₀ (focus_window m ws w c o s)
  unfolding focus_window
  focus_window-Frame m ws w c o s h =
      Frame-step _
        (focus_in_column-Frame c w _ (
          activate_in_set-Frame (workspace_set_id_for_monitor (focused m ws w c o s) m) ws
            (focused m ws w c o s)
            (Frame-step (focused m ws w c o s) h refl refl refl refl refl refl)))
        refl refl refl refl refl refl
    where
      focused :
          MonitorId → WorkspaceId → WindowId → Option ColumnId → FocusOrigin → WmState → WmState
      focused m ws w c o s = record s {
        focus = record s.focus {
          focused_monitor_id = some m;
          focused_window_id = some w;
          focused_column_id = c;
          focus_origin = o;
          active_workspace_by_monitor = insert m ws s.focus.active_workspace_by_monitor;
        };
      }

  pub set_focus_to_window-Frame :
      (m : MonitorId) (ws : WorkspaceId) (w : WindowId) (c : Option ColumnId) (o : FocusOrigin)
      → Keeps (Frame s₀) (set_focus_to_window m ws w c o)
  unfolding set_focus_to_window
  set_focus_to_window-Frame m ws w c o = search (keeps_rules, focus_window-Frame)

  pub retarget_focus_after_destroy-Frame :
      (ws : WorkspaceId) (c : Option ColumnId)
      → Keeps (Frame s₀) (retarget_focus_after_destroy ws c)
  unfolding retarget_focus_after_destroy
  retarget_focus_after_destroy-Frame ws c =
      search (keeps_rules, Frame-step, set_focus_to_window-Frame, reveal-Frame) depth 7

  pub sync_overview_selection-Frame :
      (m : MonitorId) (s : WmState) → Frame s₀ s → Frame s₀ (sync_overview_selection m s)
  unfolding sync_overview_selection
  sync_overview_selection-Frame m s h =
      branch (s.overview.is_open && eq_option s.overview.monitor_id (some m)) _
        (Frame-step _ h refl refl refl refl refl refl)
    where
      branch : (b : Bool) (t : WmState) → Frame s₀ t → Frame s₀ (if b then t else s)
      branch true t k = k
      branch false t k = h

  close_overview-Frame : (s : WmState) → Frame s₀ s → Frame s₀ (close_overview s)
  unfolding close_overview
  close_overview-Frame s h = Frame-step _ h refl refl refl refl refl refl

  open_overview-Frame : (m : MonitorId) → Keeps (Frame s₀) (open_overview_for_monitor m)
  unfolding open_overview_for_monitor
  open_overview-Frame m = search (keeps_rules, Frame-step)

  pub handle_open_overview-Frame :
      (p : OverviewCommandPayload) → Keeps (Frame s₀) (handle_open_overview p)
  unfolding handle_open_overview
  handle_open_overview-Frame p = search (keeps_rules, open_overview-Frame)

  pub handle_close_overview-Frame :
      (p : OverviewCommandPayload) → Keeps (Frame s₀) (handle_close_overview p)
  unfolding handle_close_overview
  handle_close_overview-Frame p = search (keeps_rules, close_overview-Frame)

  pub handle_toggle_overview-Frame :
      (p : OverviewCommandPayload) → Keeps (Frame s₀) (handle_toggle_overview p)
  unfolding handle_toggle_overview
  handle_toggle_overview-Frame p =
      search (keeps_rules, open_overview-Frame, close_overview-Frame) depth 7
