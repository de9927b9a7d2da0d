-- ===== src/Hotkeys/Runtime.antt =====
-- The runtime around the keyboard hook in apps/core-daemon/src/hotkeys/low_level.rs: the loop that
-- repeats a command, and the keys that a replay sends.
use flowtile_wm.Base.{
  ℕ, Bool, true, false, Option, none, some, List, [], ◌∷◌, ◌++◌, map, reverse, if◌then◌else◌, ◌==◌,
  is_some_and,
}
use flowtile_wm.Hotkeys.Keys.{Win32, is_shell_screenshot_overlay_chord}
use flowtile_wm.Hotkeys.Commands.{
  WatchCommand, focus_next, focus_prev, focus_workspace_up, focus_workspace_down, scroll_left,
  scroll_right, move_workspace_up, move_workspace_down, move_workspace_to_monitor_next,
  move_workspace_to_monitor_previous, move_column_to_workspace_up, move_column_to_workspace_down,
  cycle_column_width, toggle_floating, toggle_tabbed, toggle_maximized, toggle_fullscreen,
  open_overview, close_overview, toggle_overview, open_terminal, open_wallpaper_selector,
  close_window, reload_config, snapshot, unwind, rescan, quit,
}
use flowtile_wm.Hotkeys.State.{
  NativeHotkeyRegistration, ReplayAction, replay_lock_workstation, win_tap, replay_win_chord,
  HookDecision, LowLevelHotkeyState, new_hotkey_state,
}
use flowtile_wm.Hotkeys.Hook.{handle_key_event, repeat_command_while_held}

-- `==` on commands, by their place in the enumeration.
abbrev pub command_key : WatchCommand → ℕ
command_key focus_next = 0
command_key focus_prev = 1
command_key focus_workspace_up = 2
command_key focus_workspace_down = 3
command_key scroll_left = 4
command_key scroll_right = 5
command_key move_workspace_up = 6
command_key move_workspace_down = 7
command_key move_workspace_to_monitor_next = 8
command_key move_workspace_to_monitor_previous = 9
command_key move_column_to_workspace_up = 10
command_key move_column_to_workspace_down = 11
command_key cycle_column_width = 12
command_key toggle_floating = 13
command_key toggle_tabbed = 14
command_key toggle_maximized = 15
command_key toggle_fullscreen = 16
command_key open_overview = 17
command_key close_overview = 18
command_key toggle_overview = 19
command_key open_terminal = 20
command_key open_wallpaper_selector = 21
command_key close_window = 22
command_key reload_config = 23
command_key snapshot = 24
command_key unwind = 25
command_key rescan = 26
command_key quit = 27

abbrev pub eq_command : WatchCommand → WatchCommand → Bool
eq_command a b = command_key a == command_key b

-- What the runtime does to the system: keys that it sends, and loops that it stops and starts.
pub data Effect : Type 0 where
  lock_workstation lower_overview stop_loop : Effect
  send_virtual_key : (vk : ℕ) (key_up : Bool) → Effect
  start_loop : WatchCommand → Effect

abbrev pub downs : List ℕ → List Effect
downs = map (λ vk. send_virtual_key vk false)

abbrev pub ups : List ℕ → List Effect
ups = map (λ vk. send_virtual_key vk true)

unfoldable pub replay_action : ReplayAction → List Effect
replay_action replay_lock_workstation = lock_workstation ∷ []
replay_action (win_tap win_vk) = send_virtual_key win_vk false ∷ send_virtual_key win_vk true ∷ []
replay_action (replay_win_chord win_vk modifier_vks key_vk) =
    downs (win_vk ∷ modifier_vks ++ key_vk ∷ [])
    ++ ups (key_vk ∷ reverse modifier_vks ++ win_vk ∷ [])

pub record LowLevelHotkeyRuntime : Type 0 where
  pub state : LowLevelHotkeyState
  pub repeat_loop : Option WatchCommand

abbrev pub new_runtime : List NativeHotkeyRegistration → LowLevelHotkeyRuntime
new_runtime fallback_registrations = record {
  state = new_hotkey_state fallback_registrations;
  repeat_loop = none;
}

-- `Some(active.command) == command`.
abbrev eq_some : WatchCommand → Option WatchCommand → Bool
eq_some active none = false
eq_some active (some command) = eq_command active command

abbrev stop_if_running : Option WatchCommand → List Effect
stop_if_running none = []
stop_if_running (some active) = stop_loop ∷ []

abbrev start_if_any : Option WatchCommand → List Effect
start_if_any none = []
start_if_any (some command) = start_loop command ∷ []

-- `sync_repeat_loop`: the running loop after it, and what it does.
unfoldable pub sync_repeat_loop :
    Option WatchCommand → Option WatchCommand → List Effect × Option WatchCommand
sync_repeat_loop repeat_loop command =
    if is_some_and repeat_loop (λ active. eq_some active command)
    then ([], repeat_loop)
    else (stop_if_running repeat_loop ++ start_if_any command, command)

module _ (w : Win32) where
  unfoldable pub replay_action_needs_shell_screenshot_escape : ReplayAction → Bool
  replay_action_needs_shell_screenshot_escape (replay_win_chord win_vk modifier_vks key_vk) =
      is_shell_screenshot_overlay_chord w modifier_vks key_vk
  replay_action_needs_shell_screenshot_escape replay_lock_workstation = false
  replay_action_needs_shell_screenshot_escape (win_tap win_vk) = false

  unfoldable pub replay_effects : Option ReplayAction → List Effect
  unfolding replay_action
  replay_effects none = []
  replay_effects (some action) =
      (if replay_action_needs_shell_screenshot_escape action then lower_overview ∷ [] else [])
      ++ replay_action action

  -- `LowLevelHotkeyRuntime::handle_key_event`, with a lock that is not poisoned.
  unfoldable pub runtime_key_event :
      ℕ → ℕ → Bool → LowLevelHotkeyRuntime → HookDecision × List Effect × LowLevelHotkeyRuntime
  runtime_key_event vk message injected runtime =
      let (decision, after) = handle_key_event w vk message injected runtime.state in
      let (loop_effects, running) =
        sync_repeat_loop runtime.repeat_loop (repeat_command_while_held after) in
      (
        decision,
        replay_effects decision.replay ++ loop_effects,
        record { state = after; repeat_loop = running },
      )
