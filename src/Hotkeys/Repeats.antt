-- ===== src/Hotkeys/Repeats.antt =====
-- When the loop that repeats a command in apps/core-daemon/src/hotkeys/low_level.rs runs.
use flowtile_wm.Base.{
  ◌≡◌, refl, sym, ap, ◌∙◌, true, Option, none, some, List, [], ◌∷◌, ◌++◌, ==_iff, get_or,
  Bool-cases, inl, inr,
}
use flowtile_wm.Hotkeys.Keys.{Win32, IsWin32}
use flowtile_wm.Hotkeys.Commands.{
  WatchCommand, focus_next, focus_prev, focus_workspace_up, focus_workspace_down, scroll_left,
  scroll_right, move_workspace_up, move_workspace_down, move_workspace_to_monitor_next,
  move_workspace_to_monitor_previous, move_column_to_workspace_up, move_column_to_workspace_down,
  cycle_column_width, toggle_floating, toggle_tabbed, toggle_maximized, toggle_fullscreen,
  open_overview, close_overview, toggle_overview, open_terminal, open_wallpaper_selector,
  close_window, reload_config, snapshot, unwind, rescan, quit,
}
use flowtile_wm.Hotkeys.State.{NativeHotkeyRegistration, LowLevelHotkeyState, new_hotkey_state}
use flowtile_wm.Hotkeys.Hook.{KeyEvent, run, handle_key_event, repeat_command_while_held}
use flowtile_wm.Hotkeys.Settles.{releases, releases-IsIdle, IsIdle}
use flowtile_wm.Hotkeys.Runtime.{
  command_key, eq_command, Effect, replay_effects, LowLevelHotkeyRuntime, new_runtime,
  sync_repeat_loop, runtime_key_event,
}
use flowtile_wm.Hotkeys.Loops.{
  running, loop_of, running-append, running-replay_effects, running-sync_repeat_loop,
}

commands : List WatchCommand
commands =
    focus_next ∷ focus_prev ∷ focus_workspace_up ∷ focus_workspace_down ∷ scroll_left ∷ scroll_right
    ∷ move_workspace_up ∷ move_workspace_down ∷ move_workspace_to_monitor_next
    ∷ move_workspace_to_monitor_previous ∷ move_column_to_workspace_up
    ∷ move_column_to_workspace_down ∷ cycle_column_width ∷ toggle_floating ∷ toggle_tabbed
    ∷ toggle_maximized ∷ toggle_fullscreen ∷ open_overview ∷ close_overview ∷ toggle_overview
    ∷ open_terminal ∷ open_wallpaper_selector ∷ close_window ∷ reload_config ∷ snapshot ∷ unwind
    ∷ rescan ∷ quit ∷ []

command_key-inverse : (c : WatchCommand) → get_or commands (command_key c) focus_next ≡ c
unfolding commands
command_key-inverse focus_next = refl
command_key-inverse focus_prev = refl
command_key-inverse focus_workspace_up = refl
command_key-inverse focus_workspace_down = refl
command_key-inverse scroll_left = refl
command_key-inverse scroll_right = refl
command_key-inverse move_workspace_up = refl
command_key-inverse move_workspace_down = refl
command_key-inverse move_workspace_to_monitor_next = refl
command_key-inverse move_workspace_to_monitor_previous = refl
command_key-inverse move_column_to_workspace_up = refl
command_key-inverse move_column_to_workspace_down = refl
command_key-inverse cycle_column_width = refl
command_key-inverse toggle_floating = refl
command_key-inverse toggle_tabbed = refl
command_key-inverse toggle_maximized = refl
command_key-inverse toggle_fullscreen = refl
command_key-inverse open_overview = refl
command_key-inverse close_overview = refl
command_key-inverse toggle_overview = refl
command_key-inverse open_terminal = refl
command_key-inverse open_wallpaper_selector = refl
command_key-inverse close_window = refl
command_key-inverse reload_config = refl
command_key-inverse snapshot = refl
command_key-inverse unwind = refl
command_key-inverse rescan = refl
command_key-inverse quit = refl

eq_command_sound : (a b : WatchCommand) → eq_command a b ≡ true → a ≡ b
eq_command_sound a b h =
    sym (command_key-inverse a)
    ∙ ap (λ k. get_or commands k focus_next) ((==_iff (command_key a) (command_key b)).0 h)
    ∙ command_key-inverse b

sync_repeat_loop-command :
    (running command : Option WatchCommand) → (sync_repeat_loop running command).1 ≡ command
unfolding sync_repeat_loop
sync_repeat_loop-command none command = refl
sync_repeat_loop-command (some active) none = refl
sync_repeat_loop-command (some active) (some command) =
    elim (Bool-cases (eq_command active command)) [
      | inl t ↦ rw t (ap some (eq_command_sound active command t))
      | inr f ↦ rw f refl
    ]

-- The runtime after a sequence of key events.
unfoldable pub run_runtime : Win32 → List KeyEvent → LowLevelHotkeyRuntime → LowLevelHotkeyRuntime
run_runtime w [] runtime = runtime
run_runtime w (event ∷ events) runtime =
    run_runtime w events (runtime_key_event w event.vk event.message event.injected runtime).2

run_runtime-state :
    (w : Win32) (events : List KeyEvent) (runtime : LowLevelHotkeyRuntime)
    → (run_runtime w events runtime).state ≡ run w events runtime.state
unfolding run_runtime run runtime_key_event
run_runtime-state w [] runtime = refl
run_runtime-state w (event ∷ events) runtime =
    run_runtime-state w events (runtime_key_event w event.vk event.message event.injected runtime).2

-- A loop runs only for the command of the trigger that is active.
run_runtime-loop :
    (w : Win32) (events : List KeyEvent) (runtime : LowLevelHotkeyRuntime)
    → runtime.repeat_loop ≡ repeat_command_while_held runtime.state
    → (run_runtime w events runtime).repeat_loop
      ≡ repeat_command_while_held (run_runtime w events runtime).state
unfolding run_runtime runtime_key_event
run_runtime-loop w [] runtime h = h
run_runtime-loop w (event ∷ events) runtime h =
    run_runtime-loop w events _ (sync_repeat_loop-command runtime.repeat_loop _)

idle_loop : (s : LowLevelHotkeyState) → IsIdle s → repeat_command_while_held s ≡ none
unfolding repeat_command_while_held
idle_loop s h = rw h.trigger refl

new_loop :
    (registrations : List NativeHotkeyRegistration)
    → none ≡ repeat_command_while_held (new_hotkey_state registrations)
unfolding new_hotkey_state repeat_command_while_held
new_loop registrations = refl

lifted-IsIdle :
    (w : Win32)
    → IsWin32 w
    → (registrations : List NativeHotkeyRegistration) (events : List KeyEvent)
      (runtime : LowLevelHotkeyRuntime)
    → runtime.state ≡ run w events (new_hotkey_state registrations)
    → IsIdle (run_runtime w (releases w runtime.state.pressed_keys) runtime).state
lifted-IsIdle w v registrations events runtime same =
    rw (run_runtime-state w (releases w runtime.state.pressed_keys) runtime, same)
      (releases-IsIdle w v registrations events)

-- All effects of a sequence of key events.
unfoldable pub run_effects : Win32 → List KeyEvent → LowLevelHotkeyRuntime → List Effect
run_effects w [] runtime = []
run_effects w (event ∷ events) runtime =
    let (_, effects, after) = runtime_key_event w event.vk event.message event.injected runtime in
    effects ++ run_effects w events after

running-run_effects :
    (w : Win32) (events : List KeyEvent) (runtime : LowLevelHotkeyRuntime)
    → running (run_effects w events runtime) (loop_of runtime.repeat_loop)
      ≡ loop_of (run_runtime w events runtime).repeat_loop
unfolding running run_effects run_runtime runtime_key_event
running-run_effects w [] runtime = refl
running-run_effects w (event ∷ events) runtime =
    let (decision, after) =
      handle_key_event w event.vk event.message event.injected runtime.state in
    let command = repeat_command_while_held after in
    let sent = replay_effects w decision.replay in
    let switched = sync_repeat_loop runtime.repeat_loop command in
    running-append (sent ++ switched.0) _ (loop_of runtime.repeat_loop)
    ∙ ap (running (run_effects w events _)) (
        running-append sent switched.0 (loop_of runtime.repeat_loop)
        ∙ ap (running switched.0) (running-replay_effects w decision.replay _)
        ∙ running-sync_repeat_loop runtime.repeat_loop command)
    ∙ running-run_effects w events _

-- After any sequence of key events from the start, the loops that were started and not stopped are one
-- for the command of the active trigger, if it repeats while held, and none otherwise; and once the
-- pressed keys are then let go, in the order in which their set lists them, none is left that was
-- started and not stopped. The masks and messages of Win32 have their documented values.
pub repeat_loop-follows :
    (w : Win32)
    → IsWin32 w
    → (registrations : List NativeHotkeyRegistration) (events : List KeyEvent)
    → (running (run_effects w events (new_runtime registrations)) []
        ≡ loop_of
            (repeat_command_while_held (run_runtime w events (new_runtime registrations)).state))
      × (running
            (run_effects w events (new_runtime registrations)
              ++ run_effects w
                  (releases w (run_runtime w events (new_runtime registrations)).state.pressed_keys)
                  (run_runtime w events (new_runtime registrations)))
            []
          ≡ [])
repeat_loop-follows w v registrations events =
    let before = run_runtime w events (new_runtime registrations) in
    let lifted = releases w before.state.pressed_keys in
    let follows = run_runtime-loop w events (new_runtime registrations) (new_loop registrations) in
    let same = run_runtime-state w events (new_runtime registrations) in
    let started = running-run_effects w events (new_runtime registrations) in
    let stopped =
      run_runtime-loop w lifted before follows
      ∙ idle_loop _ (lifted-IsIdle w v registrations events before same) in
    (
      started ∙ ap loop_of follows,
      running-append (run_effects w events (new_runtime registrations)) _ []
          ∙ ap (running (run_effects w lifted before)) started
          ∙ running-run_effects w lifted before
          ∙ ap loop_of stopped,
    )
