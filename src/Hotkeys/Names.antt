-- ===== src/Hotkeys/Names.antt =====
-- The texts of the commands of apps/core-daemon/src/control.rs read back.
use flowtile_wm.Base.{◌≡◌, refl, Bool, true, false, none, some, if◌then◌else◌}
use flowtile_wm.Hotkeys.Commands.{
  WatchCommand, focus_next, focus_prev, focus_workspace_up, focus_workspace_down, scroll_left,
  scroll_right, move_workspace_up, move_workspace_down, move_workspace_to_monitor_next,
  move_workspace_to_monitor_previous, move_column_to_workspace_up, move_column_to_workspace_down,
  cycle_column_width, toggle_floating, toggle_tabbed, toggle_maximized, toggle_fullscreen,
  open_overview, close_overview, toggle_overview, open_terminal, open_wallpaper_selector,
  close_window, reload_config, snapshot, unwind, rescan, quit, from_hotkey_command,
  as_hotkey_command_name,
}

-- The commands that only the console of the daemon offers.
abbrev pub is_console_only : WatchCommand → Bool
is_console_only snapshot = true
is_console_only rescan = true
is_console_only quit = true
is_console_only _ = false

-- The name of a command, read as a hotkey binding, is that command, except that the commands of the
-- console are not bound to hotkeys.
pub as_hotkey_command_name_trip :
    (command : WatchCommand)
    → from_hotkey_command (as_hotkey_command_name command)
      ≡ (if is_console_only command then none else some command)
unfolding from_hotkey_command as_hotkey_command_name
as_hotkey_command_name_trip focus_next = refl
as_hotkey_command_name_trip focus_prev = refl
as_hotkey_command_name_trip focus_workspace_up = refl
as_hotkey_command_name_trip focus_workspace_down = refl
as_hotkey_command_name_trip scroll_left = refl
as_hotkey_command_name_trip scroll_right = refl
as_hotkey_command_name_trip move_workspace_up = refl
as_hotkey_command_name_trip move_workspace_down = refl
as_hotkey_command_name_trip move_workspace_to_monitor_next = refl
as_hotkey_command_name_trip move_workspace_to_monitor_previous = refl
as_hotkey_command_name_trip move_column_to_workspace_up = refl
as_hotkey_command_name_trip move_column_to_workspace_down = refl
as_hotkey_command_name_trip cycle_column_width = refl
as_hotkey_command_name_trip toggle_floating = refl
as_hotkey_command_name_trip toggle_tabbed = refl
as_hotkey_command_name_trip toggle_maximized = refl
as_hotkey_command_name_trip toggle_fullscreen = refl
as_hotkey_command_name_trip open_overview = refl
as_hotkey_command_name_trip close_overview = refl
as_hotkey_command_name_trip toggle_overview = refl
as_hotkey_command_name_trip open_terminal = refl
as_hotkey_command_name_trip open_wallpaper_selector = refl
as_hotkey_command_name_trip close_window = refl
as_hotkey_command_name_trip reload_config = refl
as_hotkey_command_name_trip snapshot = refl
as_hotkey_command_name_trip unwind = refl
as_hotkey_command_name_trip rescan = refl
as_hotkey_command_name_trip quit = refl
