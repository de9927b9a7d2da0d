-- ===== src/Frame/Handlers/Platform.antt =====
-- The frame and the platform events, focus commands and width commands of crates/wm-
-- core/src/state_store.rs and its children.
use flowtile_wm.Base.{refl, Bool, Option}
use flowtile_wm.Domain.{
  MonitorId, WorkspaceId, ColumnId, WindowId, WmState, Column, WindowLayer, tiled, floating,
  fullscreen, WindowPlacement, append_to_focused_column, new_column_after_focus,
  new_column_before_focus, append_to_workspace_end, NavigationScope, workspace_strip, column_tabs,
  FocusCommandPayload, WindowDiscoveredPayload, WindowDestroyedPayload, WindowFocusObservedPayload,
  ColumnWidthResizePayload, ColumnWidthPointerPayload,
}
use flowtile_wm.Store.{
  DiscoveryContext, place_discovered, discovered_column, register_window, settle_discovered,
  handle_window_discovered, handle_window_destroyed, handle_window_focus_observed, cycle_tab,
  try_cycle_tabbed_focus, navigate_strip, navigate_tabs, handle_focus_navigation,
  handle_begin_column_width_resize, handle_update_column_width_preview, handle_commit_column_width,
  handle_cancel_column_width_resize, handle_cycle_column_width,
}
use flowtile_wm.Keeps.{Keeps, keeps_rules}
use flowtile_wm.Frame.Relation.{Frame, Frame-step}
use flowtile_wm.Frame.Handlers.Focus.{activate_in_set-Frame}
use flowtile_wm.Frame.Handlers.Windows.{
  focus_rules, allocate_window_id-Frame, insert_new_column-Frame, push_window-Frame, detach-Frame,
}

module _ {s₀ : WmState} where
  place_discovered-Frame :
      (c : DiscoveryContext) (w : WindowId) (p : WindowPlacement)
      → Keeps (Frame s₀) (place_discovered c w p)
  unfolding place_discovered
  place_discovered-Frame c w append_to_focused_column =
      search (focus_rules, insert_new_column-Frame) depth 7
  place_discovered-Frame c w (new_column_after_focus m d) = insert_new_column-Frame _ w _
  place_discovered-Frame c w (new_column_before_focus m d) = insert_new_column-Frame _ w _
  place_discovered-Frame c w (append_to_workspace_end m d) = insert_new_column-Frame _ w _

  discovered_column-Frame :
      (c : DiscoveryContext) (w : WindowId) (p : WindowPlacement) (l : WindowLayer)
      → Keeps (Frame s₀) (discovered_column c w p l)
  unfolding discovered_column
  discovered_column-Frame c w p tiled = search (keeps_rules, place_discovered-Frame)
  discovered_column-Frame c w p floating = search (keeps_rules, push_window-Frame)
  discovered_column-Frame c w p fullscreen = search (keeps_rules, push_window-Frame)

  register_window-Frame :
      (p : WindowDiscoveredPayload) (ws : WorkspaceId) (w : WindowId) (c : Option ColumnId)
      (s : WmState)
      → Frame s₀ s
      → Frame s₀ (register_window p ws w c s)
  unfolding register_window
  register_window-Frame p ws w c s h =
      activate_in_set-Frame _ ws _ (Frame-step _ h refl refl refl refl refl refl)

  settle_discovered-Frame :
      (m : MonitorId) (c : DiscoveryContext) (w : WindowId) (o : Option ColumnId)
      → Keeps (Frame s₀) (settle_discovered m c w o)
  unfolding settle_discovered
  settle_discovered-Frame m c w o = search focus_rules depth 12

  pub window_discovered-Frame :
      (p : WindowDiscoveredPayload) → Keeps (Frame s₀) (handle_window_discovered p)
  unfolding handle_window_discovered
  window_discovered-Frame p =
      search
        (
          focus_rules, allocate_window_id-Frame, discovered_column-Frame, register_window-Frame,
          settle_discovered-Frame,
        )
        depth 12

  pub window_destroyed-Frame :
      (p : WindowDestroyedPayload) → Keeps (Frame s₀) (handle_window_destroyed p)
  unfolding handle_window_destroyed
  window_destroyed-Frame p = search (focus_rules, detach-Frame) depth 14

  pub focus_observed-Frame :
      (p : WindowFocusObservedPayload) → Keeps (Frame s₀) (handle_window_focus_observed p)
  unfolding handle_window_focus_observed
  focus_observed-Frame p = search focus_rules depth 12

  cycle_tab-Frame :
      (ws : WorkspaceId) (c : ColumnId) (b : Bool) (k : Column)
      → Keeps (Frame s₀) (cycle_tab ws c b k)
  unfolding cycle_tab
  cycle_tab-Frame ws c b k = search focus_rules depth 12

  try_cycle-Frame :
      (ws : WorkspaceId) (c : ColumnId) (b : Bool)
      → Keeps (Frame s₀) (try_cycle_tabbed_focus ws c b)
  unfolding try_cycle_tabbed_focus
  try_cycle-Frame ws c b = search (keeps_rules, cycle_tab-Frame)

  navigate_strip-Frame : (ws : WorkspaceId) (b : Bool) → Keeps (Frame s₀) (navigate_strip ws b)
  unfolding navigate_strip
  navigate_strip-Frame ws b = search focus_rules depth 12

  navigate_tabs-Frame :
      (n : NavigationScope) (ws : WorkspaceId) (b : Bool) → Keeps (Frame s₀) (navigate_tabs n ws b)
  unfolding navigate_tabs
  navigate_tabs-Frame workspace_strip ws b = search keeps_rules
  navigate_tabs-Frame column_tabs ws b = search (keeps_rules, try_cycle-Frame)

  pub focus_navigation-Frame :
      (b : Bool) (p : FocusCommandPayload) → Keeps (Frame s₀) (handle_focus_navigation b p)
  unfolding handle_focus_navigation
  focus_navigation-Frame b p =
      search (keeps_rules, navigate_tabs-Frame, navigate_strip-Frame) depth 7

  pub begin_resize-Frame :
      (p : ColumnWidthResizePayload) → Keeps (Frame s₀) (handle_begin_column_width_resize p)
  unfolding handle_begin_column_width_resize
  begin_resize-Frame p = search focus_rules depth 12

  pub update_preview-Frame :
      (p : ColumnWidthPointerPayload) → Keeps (Frame s₀) (handle_update_column_width_preview p)
  unfolding handle_update_column_width_preview
  update_preview-Frame p = search focus_rules depth 9

  pub commit_width-Frame :
      (p : ColumnWidthPointerPayload) → Keeps (Frame s₀) (handle_commit_column_width p)
  unfolding handle_commit_column_width
  commit_width-Frame p = search focus_rules depth 12

  pub cancel_resize-Frame : Keeps (Frame s₀) handle_cancel_column_width_resize
  unfolding handle_cancel_column_width_resize
  cancel_resize-Frame = search focus_rules depth 7

  pub cycle_width-Frame : Keeps (Frame s₀) handle_cycle_column_width
  unfolding handle_cycle_column_width
  cycle_width-Frame = search focus_rules depth 12
