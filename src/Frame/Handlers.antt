-- ===== src/Frame/Handlers.antt =====
-- The frame and the handlers of crates/wm-core/src/state_store.rs.
mod Focus
mod Windows
mod Platform
mod Sets
use flowtile_wm.Base.{◌≡◌, refl}
use flowtile_wm.Domain.{
  WmState, DomainEventPayload, discovered, destroyed, focus_observed, focus_next, focus_prev,
  focus_workspace_up, focus_workspace_down, scroll_strip_left, scroll_strip_right,
  move_workspace_up, move_workspace_down, move_workspace_to_monitor_next,
  move_workspace_to_monitor_previous, move_column_to_workspace_up, move_column_to_workspace_down,
  move_column_to_workspace_target, toggle_floating, toggle_tabbed, toggle_maximized,
  toggle_fullscreen, open_overview, close_overview, toggle_overview, begin_column_width_resize,
  update_column_width_preview, commit_column_width, cancel_column_width_resize, cycle_column_width,
  config_reload_requested, config_reload_succeeded, config_reload_failed, rules_updated,
  reconcile_requested, full_scan_requested,
}
use flowtile_wm.Store.{apply_event, handle_config_reload_succeeded, handle_rules_updated}
use flowtile_wm.Keeps.{Keeps, keeps_rules}
use flowtile_wm.Frame.Relation.{Frame, Frame-step}
use Focus.{handle_open_overview-Frame, handle_close_overview-Frame, handle_toggle_overview-Frame}
use Windows.{
  toggle_floating-Frame, toggle_fullscreen-Frame, toggle_tabbed-Frame, toggle_maximized-Frame,
  strip_scroll-Frame,
}
use Platform.{
  window_discovered-Frame, window_destroyed-Frame, focus_observed-Frame, focus_navigation-Frame,
  begin_resize-Frame, update_preview-Frame, commit_width-Frame, cancel_resize-Frame,
  cycle_width-Frame,
}
use Sets.{
  focus_workspace-Frame, move_within-Frame, move_to_monitor-Frame, move_column_to_workspace-Frame,
  move_column_to_target-Frame,
}

-- Whatever the event and whether it succeeds or not, it keeps the frame.
pub apply_event-Frame : {s₀ : WmState} (e : DomainEventPayload) → Keeps (Frame s₀) (apply_event e)
unfolding apply_event handle_config_reload_succeeded handle_rules_updated
apply_event-Frame (discovered p) = window_discovered-Frame p
apply_event-Frame (destroyed p) = window_destroyed-Frame p
apply_event-Frame (focus_observed p) = focus_observed-Frame p
apply_event-Frame (focus_next p) = focus_navigation-Frame _ p
apply_event-Frame (focus_prev p) = focus_navigation-Frame _ p
apply_event-Frame (focus_workspace_up p) = focus_workspace-Frame _ p
apply_event-Frame (focus_workspace_down p) = focus_workspace-Frame _ p
apply_event-Frame (scroll_strip_left p) = strip_scroll-Frame _ p
apply_event-Frame (scroll_strip_right p) = strip_scroll-Frame _ p
apply_event-Frame (move_workspace_up p) = move_within-Frame _ p
apply_event-Frame (move_workspace_down p) = move_within-Frame _ p
apply_event-Frame (move_workspace_to_monitor_next p) = move_to_monitor-Frame _ p
apply_event-Frame (move_workspace_to_monitor_previous p) = move_to_monitor-Frame _ p
apply_event-Frame (move_column_to_workspace_up p) = move_column_to_workspace-Frame _ p
apply_event-Frame (move_column_to_workspace_down p) = move_column_to_workspace-Frame _ p
apply_event-Frame (move_column_to_workspace_target p) = move_column_to_target-Frame p
apply_event-Frame (toggle_floating p) = toggle_floating-Frame p
apply_event-Frame (toggle_tabbed p) = toggle_tabbed-Frame p
apply_event-Frame (toggle_maximized p) = toggle_maximized-Frame p
apply_event-Frame (toggle_fullscreen p) = toggle_fullscreen-Frame p
apply_event-Frame (open_overview p) = handle_open_overview-Frame p
apply_event-Frame (close_overview p) = handle_close_overview-Frame p
apply_event-Frame (toggle_overview p) = handle_toggle_overview-Frame p
apply_event-Frame (begin_column_width_resize p) = begin_resize-Frame p
apply_event-Frame (update_column_width_preview p) = update_preview-Frame p
apply_event-Frame (commit_column_width p) = commit_width-Frame p
apply_event-Frame cancel_column_width_resize = cancel_resize-Frame
apply_event-Frame cycle_column_width = cycle_width-Frame
apply_event-Frame (config_reload_requested p) = search keeps_rules
apply_event-Frame (config_reload_succeeded p) = search (keeps_rules, Frame-step)
apply_event-Frame (config_reload_failed p) = search keeps_rules
apply_event-Frame (rules_updated p) = search (keeps_rules, Frame-step)
apply_event-Frame reconcile_requested = search keeps_rules
apply_event-Frame full_scan_requested = search keeps_rules
