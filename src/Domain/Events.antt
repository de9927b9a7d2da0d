-- ===== src/Domain/Events.antt =====
-- crates/domain/src/events.rs: the names, payloads and envelopes of domain events.
use flowtile_wm.Base.{String}

pub data EventCategory : Type 0 where
  platform_derived user_input_derived config_rules_derived ipc_derived system_recovery :
      EventCategory

pub data EventSource : Type 0 where
  windows_adapter input_command config_rules ipc_client wm_core : EventSource

pub data DomainEventName : Type 0 where
  window_discovered window_destroyed window_shown window_hidden window_location_changed
        window_focus_observed monitor_topology_changed system_suspend system_resume
        explorer_restart_observed cmd_focus_next cmd_focus_prev cmd_focus_workspace_up
        cmd_focus_workspace_down cmd_scroll_strip_left cmd_scroll_strip_right cmd_move_workspace_up
        cmd_move_workspace_down cmd_move_workspace_to_monitor_next
        cmd_move_workspace_to_monitor_previous cmd_move_column_to_workspace_up
        cmd_move_column_to_workspace_down cmd_move_column_to_workspace_target cmd_move_window
        cmd_toggle_floating cmd_toggle_tabbed cmd_toggle_maximized cmd_toggle_fullscreen
        cmd_open_overview cmd_close_overview cmd_toggle_overview cmd_begin_column_width_resize
        cmd_update_column_width_preview cmd_commit_column_width cmd_cancel_column_width_resize
        cmd_cycle_column_width cmd_emergency_unwind config_reload_requested config_reload_succeeded
        config_reload_failed rules_updated ipc_command_received ipc_snapshot_requested
        ipc_client_connected ipc_client_disconnected reconcile_requested full_scan_requested
        desync_detected ui_host_crashed capture_module_crashed :
      DomainEventName

unfoldable pub event_name_as_str : DomainEventName → String
event_name_as_str window_discovered = "EVT-WINDOW-DISCOVERED"
event_name_as_str window_destroyed = "EVT-WINDOW-DESTROYED"
event_name_as_str window_shown = "EVT-WINDOW-SHOWN"
event_name_as_str window_hidden = "EVT-WINDOW-HIDDEN"
event_name_as_str window_location_changed = "EVT-WINDOW-LOCATION-CHANGED"
event_name_as_str window_focus_observed = "EVT-WINDOW-FOCUS-OBSERVED"
event_name_as_str monitor_topology_changed = "EVT-MONITOR-TOPOLOGY-CHANGED"
event_name_as_str system_suspend = "EVT-SYSTEM-SUSPEND"
event_name_as_str system_resume = "EVT-SYSTEM-RESUME"
event_name_as_str explorer_restart_observed = "EVT-EXPLORER-RESTART-OBSERVED"
event_name_as_str cmd_focus_next = "EVT-CMD-FOCUS-NEXT"
event_name_as_str cmd_focus_prev = "EVT-CMD-FOCUS-PREV"
event_name_as_str cmd_focus_workspace_up = "EVT-CMD-FOCUS-WORKSPACE-UP"
event_name_as_str cmd_focus_workspace_down = "EVT-CMD-FOCUS-WORKSPACE-DOWN"
event_name_as_str cmd_scroll_strip_left = "EVT-CMD-SCROLL-STRIP-LEFT"
event_name_as_str cmd_scroll_strip_right = "EVT-CMD-SCROLL-STRIP-RIGHT"
event_name_as_str cmd_move_workspace_up = "EVT-CMD-MOVE-WORKSPACE-UP"
event_name_as_str cmd_move_workspace_down = "EVT-CMD-MOVE-WORKSPACE-DOWN"
event_name_as_str cmd_move_workspace_to_monitor_next = "EVT-CMD-MOVE-WORKSPACE-TO-MONITOR-NEXT"
event_name_as_str cmd_move_workspace_to_monitor_previous =
    "EVT-CMD-MOVE-WORKSPACE-TO-MONITOR-PREVIOUS"
event_name_as_str cmd_move_column_to_workspace_up = "EVT-CMD-MOVE-COLUMN-TO-WORKSPACE-UP"
event_name_as_str cmd_move_column_to_workspace_down = "EVT-CMD-MOVE-COLUMN-TO-WORKSPACE-DOWN"
event_name_as_str cmd_move_column_to_workspace_target = "EVT-CMD-MOVE-COLUMN-TO-WORKSPACE-TARGET"
event_name_as_str cmd_move_window = "EVT-CMD-MOVE-WINDOW"
event_name_as_str cmd_toggle_floating = "EVT-CMD-TOGGLE-FLOATING"
event_name_as_str cmd_toggle_tabbed = "EVT-CMD-TOGGLE-TABBED"
event_name_as_str cmd_toggle_maximized = "EVT-CMD-TOGGLE-MAXIMIZED"
event_name_as_str cmd_toggle_fullscreen = "EVT-CMD-TOGGLE-FULLSCREEN"
event_name_as_str cmd_open_overview = "EVT-CMD-OPEN-OVERVIEW"
event_name_as_str cmd_close_overview = "EVT-CMD-CLOSE-OVERVIEW"
event_name_as_str cmd_toggle_overview = "EVT-CMD-TOGGLE-OVERVIEW"
event_name_as_str cmd_begin_column_width_resize = "EVT-CMD-BEGIN-COLUMN-WIDTH-RESIZE"
event_name_as_str cmd_update_column_width_preview = "EVT-CMD-UPDATE-COLUMN-WIDTH-PREVIEW"
event_name_as_str cmd_commit_column_width = "EVT-CMD-COMMIT-COLUMN-WIDTH"
event_name_as_str cmd_cancel_column_width_resize = "EVT-CMD-CANCEL-COLUMN-WIDTH-RESIZE"
event_name_as_str cmd_cycle_column_width = "EVT-CMD-CYCLE-COLUMN-WIDTH"
event_name_as_str cmd_emergency_unwind = "EVT-CMD-EMERGENCY-UNWIND"
event_name_as_str config_reload_requested = "EVT-CONFIG-RELOAD-REQUESTED"
event_name_as_str config_reload_succeeded = "EVT-CONFIG-RELOAD-SUCCEEDED"
event_name_as_str config_reload_failed = "EVT-CONFIG-RELOAD-FAILED"
event_name_as_str rules_updated = "EVT-RULES-UPDATED"
event_name_as_str ipc_command_received = "EVT-IPC-COMMAND-RECEIVED"
event_name_as_str ipc_snapshot_requested = "EVT-IPC-SNAPSHOT-REQUESTED"
event_name_as_str ipc_client_connected = "EVT-IPC-CLIENT-CONNECTED"
event_name_as_str ipc_client_disconnected = "EVT-IPC-CLIENT-DISCONNECTED"
event_name_as_str reconcile_requested = "EVT-RECONCILE-REQUESTED"
event_name_as_str full_scan_requested = "EVT-FULL-SCAN-REQUESTED"
event_name_as_str desync_detected = "EVT-DESYNC-DETECTED"
event_name_as_str ui_host_crashed = "EVT-UI-HOST-CRASHED"
event_name_as_str capture_module_crashed = "EVT-CAPTURE-MODULE-CRASHED"
