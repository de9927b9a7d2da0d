-- ===== src/Hotkeys/Commands.antt =====
-- The commands of apps/core-daemon/src/control.rs and their texts.
use flowtile_wm.Base.{Bool, true, false, ◌||◌, Option, none, some, String, if◌then◌else◌}
use flowtile_wm.Base.Text.{eq_text}

pub data WatchCommand : Type 0 where
  focus_next focus_prev focus_workspace_up focus_workspace_down scroll_left scroll_right :
      WatchCommand
  move_workspace_up move_workspace_down move_workspace_to_monitor_next : WatchCommand
  move_workspace_to_monitor_previous move_column_to_workspace_up : WatchCommand
  move_column_to_workspace_down cycle_column_width toggle_floating toggle_tabbed : WatchCommand
  toggle_maximized toggle_fullscreen open_overview close_overview toggle_overview : WatchCommand
  open_terminal open_wallpaper_selector close_window reload_config snapshot unwind rescan :
      WatchCommand
  quit : WatchCommand

unfoldable pub from_input_command : String → Option WatchCommand
from_input_command command =
    if eq_text command "focus-next"
    then some focus_next
    else if eq_text command "focus-prev"
    then some focus_prev
    else if eq_text command "focus-workspace-up"
    then some focus_workspace_up
    else if eq_text command "focus-workspace-down"
    then some focus_workspace_down
    else if eq_text command "scroll-strip-left"
    then some scroll_left
    else if eq_text command "scroll-strip-right"
    then some scroll_right
    else if eq_text command "move-workspace-up"
    then some move_workspace_up
    else if eq_text command "move-workspace-down"
    then some move_workspace_down
    else if eq_text command "move-workspace-to-monitor-next"
    then some move_workspace_to_monitor_next
    else if eq_text command "move-workspace-to-monitor-previous"
    then some move_workspace_to_monitor_previous
    else if eq_text command "move-column-to-workspace-up"
    then some move_column_to_workspace_up
    else if eq_text command "move-column-to-workspace-down"
    then some move_column_to_workspace_down
    else if eq_text command "cycle-column-width"
    then some cycle_column_width
    else if eq_text command "toggle-floating"
    then some toggle_floating
    else if eq_text command "toggle-tabbed"
    then some toggle_tabbed
    else if eq_text command "toggle-maximized"
    then some toggle_maximized
    else if eq_text command "toggle-fullscreen"
    then some toggle_fullscreen
    else if eq_text command "open-overview"
    then some open_overview
    else if eq_text command "close-overview"
    then some close_overview
    else if eq_text command "toggle-overview"
    then some toggle_overview
    else if eq_text command "open-terminal"
    then some open_terminal
    else if eq_text command "open-wallpaper-selector"
    then some open_wallpaper_selector
    else if eq_text command "close-window"
    then some close_window
    else if eq_text command "reload-config"
    then some reload_config
    else if eq_text command "disable-management-and-unwind"
    then some unwind
    else none

unfoldable pub from_stdin_alias : String → Option WatchCommand
from_stdin_alias command =
    if eq_text command "focus-next" || eq_text command "next"
    then some focus_next
    else if eq_text command "focus-prev" || eq_text command "prev"
    then some focus_prev
    else if eq_text command "focus-workspace-up" || eq_text command "workspace-up"
    then some focus_workspace_up
    else if eq_text command "focus-workspace-down" || eq_text command "workspace-down"
    then some focus_workspace_down
    else if eq_text command "scroll-left" || eq_text command "left"
    then some scroll_left
    else if eq_text command "scroll-right" || eq_text command "right"
    then some scroll_right
    else if eq_text command "move-workspace-up" || eq_text command "workspace-move-up"
    then some move_workspace_up
    else if eq_text command "move-workspace-down" || eq_text command "workspace-move-down"
    then some move_workspace_down
    else if eq_text command "move-workspace-to-monitor-next"
        || eq_text command "workspace-monitor-next"
    then some move_workspace_to_monitor_next
    else if eq_text command "move-workspace-to-monitor-previous"
        || eq_text command "workspace-monitor-prev"
    then some move_workspace_to_monitor_previous
    else if eq_text command "move-column-to-workspace-up" || eq_text command "column-workspace-up"
    then some move_column_to_workspace_up
    else if eq_text command "move-column-to-workspace-down"
        || eq_text command "column-workspace-down"
    then some move_column_to_workspace_down
    else if eq_text command "cycle-column-width"
        || eq_text command "cycle-width"
        || eq_text command "width"
    then some cycle_column_width
    else if eq_text command "toggle-floating" || eq_text command "floating"
    then some toggle_floating
    else if eq_text command "toggle-tabbed" || eq_text command "tabbed"
    then some toggle_tabbed
    else if eq_text command "toggle-maximized" || eq_text command "maximized"
    then some toggle_maximized
    else if eq_text command "toggle-fullscreen" || eq_text command "fullscreen"
    then some toggle_fullscreen
    else if eq_text command "open-overview" || eq_text command "overview-open"
    then some open_overview
    else if eq_text command "close-overview" || eq_text command "overview-close"
    then some close_overview
    else if eq_text command "toggle-overview" || eq_text command "overview"
    then some toggle_overview
    else if eq_text command "open-terminal" || eq_text command "terminal"
    then some open_terminal
    else if eq_text command "open-wallpaper-selector"
        || eq_text command "wallpaper"
        || eq_text command "wallpaper-selector"
    then some open_wallpaper_selector
    else if eq_text command "close-window" || eq_text command "window-close"
    then some close_window
    else if eq_text command "reload-config" || eq_text command "reload"
    then some reload_config
    else if eq_text command "snapshot"
    then some snapshot
    else if eq_text command "unwind"
    then some unwind
    else if eq_text command "rescan"
    then some rescan
    else if eq_text command "quit" || eq_text command "exit"
    then some quit
    else none

unfoldable pub from_hotkey_command : String → Option WatchCommand
unfolding from_input_command
from_hotkey_command = from_input_command

unfoldable pub as_hotkey_command_name : WatchCommand → String
as_hotkey_command_name focus_next = "focus-next"
as_hotkey_command_name focus_prev = "focus-prev"
as_hotkey_command_name focus_workspace_up = "focus-workspace-up"
as_hotkey_command_name focus_workspace_down = "focus-workspace-down"
as_hotkey_command_name scroll_left = "scroll-strip-left"
as_hotkey_command_name scroll_right = "scroll-strip-right"
as_hotkey_command_name move_workspace_up = "move-workspace-up"
as_hotkey_command_name move_workspace_down = "move-workspace-down"
as_hotkey_command_name move_workspace_to_monitor_next = "move-workspace-to-monitor-next"
as_hotkey_command_name move_workspace_to_monitor_previous = "move-workspace-to-monitor-previous"
as_hotkey_command_name move_column_to_workspace_up = "move-column-to-workspace-up"
as_hotkey_command_name move_column_to_workspace_down = "move-column-to-workspace-down"
as_hotkey_command_name cycle_column_width = "cycle-column-width"
as_hotkey_command_name toggle_floating = "toggle-floating"
as_hotkey_command_name toggle_tabbed = "toggle-tabbed"
as_hotkey_command_name toggle_maximized = "toggle-maximized"
as_hotkey_command_name toggle_fullscreen = "toggle-fullscreen"
as_hotkey_command_name open_overview = "open-overview"
as_hotkey_command_name close_overview = "close-overview"
as_hotkey_command_name toggle_overview = "toggle-overview"
as_hotkey_command_name open_terminal = "open-terminal"
as_hotkey_command_name open_wallpaper_selector = "open-wallpaper-selector"
as_hotkey_command_name close_window = "close-window"
as_hotkey_command_name reload_config = "reload-config"
as_hotkey_command_name snapshot = "snapshot"
as_hotkey_command_name unwind = "disable-management-and-unwind"
as_hotkey_command_name rescan = "rescan"
as_hotkey_command_name quit = "quit"

unfoldable pub as_ipc_command_name : WatchCommand → Option String
as_ipc_command_name focus_next = some "focus_next"
as_ipc_command_name focus_prev = some "focus_prev"
as_ipc_command_name focus_workspace_up = some "focus_workspace_up"
as_ipc_command_name focus_workspace_down = some "focus_workspace_down"
as_ipc_command_name scroll_left = some "scroll_strip_left"
as_ipc_command_name scroll_right = some "scroll_strip_right"
as_ipc_command_name move_workspace_up = some "move_workspace_up"
as_ipc_command_name move_workspace_down = some "move_workspace_down"
as_ipc_command_name move_workspace_to_monitor_next = some "move_workspace_to_monitor_next"
as_ipc_command_name move_workspace_to_monitor_previous = some "move_workspace_to_monitor_previous"
as_ipc_command_name move_column_to_workspace_up = some "move_column_to_workspace_up"
as_ipc_command_name move_column_to_workspace_down = some "move_column_to_workspace_down"
as_ipc_command_name cycle_column_width = some "cycle_column_width"
as_ipc_command_name toggle_floating = some "toggle_floating"
as_ipc_command_name toggle_tabbed = some "toggle_tabbed"
as_ipc_command_name toggle_maximized = some "toggle_maximized"
as_ipc_command_name toggle_fullscreen = some "toggle_fullscreen"
as_ipc_command_name open_overview = some "open_overview"
as_ipc_command_name close_overview = some "close_overview"
as_ipc_command_name toggle_overview = some "toggle_overview"
as_ipc_command_name reload_config = some "reload_config"
as_ipc_command_name open_terminal = none
as_ipc_command_name open_wallpaper_selector = none
as_ipc_command_name close_window = none
as_ipc_command_name snapshot = none
as_ipc_command_name unwind = none
as_ipc_command_name rescan = none
as_ipc_command_name quit = none

unfoldable pub repeats_while_held : WatchCommand → Bool
repeats_while_held scroll_left = true
repeats_while_held scroll_right = true
repeats_while_held _ = false
