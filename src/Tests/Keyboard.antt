-- ===== src/Tests/Keyboard.antt =====
-- The theorems on hotkeys at concrete inputs.
use flowtile_wm.Base.{
  ℕ, ◌≡◌, refl, true, false, some, none, List, [], ◌∷◌, ◌++◌, ok, err, if◌then◌else◌,
}
use flowtile_wm.Base.Sets.{insert_key}
use flowtile_wm.Hotkeys.Keys.{
  Win32, IsWin32, is_win_vk, is_key_down_message, is_keyboard_message, is_shift_vk, is_alt_vk,
  is_control_vk, is_pending_modifier_vk, active_modifier_mask,
}
use flowtile_wm.Hotkeys.Commands.{scroll_left, from_hotkey_command, as_hotkey_command_name}
use flowtile_wm.Hotkeys.Names.{is_console_only, as_hotkey_command_name_trip}
use flowtile_wm.Hotkeys.State.{
  NativeHotkeyRegistration, LowLevelHotkeyState, new_hotkey_state, find_registration,
  replay_win_chord, has_pure_win_bindings,
}
use flowtile_wm.Hotkeys.Hook.{
  KeyEvent, run, handle_key_event, key_down, key_up, starts_prefix, pending_key_down,
  repeat_command_while_held,
}
use flowtile_wm.Hotkeys.Held.{IsConsistent}
use flowtile_wm.Hotkeys.Releases.{run-IsConsistent}
use flowtile_wm.Hotkeys.Settles.{IsIdle, releases, releases-IsIdle}
use flowtile_wm.Hotkeys.Chord.{resting, chord_key-stuck}
use flowtile_wm.Hotkeys.Fires.{IsAnswer, handle_key_event-IsAnswer}
use flowtile_wm.Hotkeys.Runtime.{replay_action, new_runtime}
use flowtile_wm.Hotkeys.Loops.{running, loop_of}
use flowtile_wm.Hotkeys.Repeats.{run_runtime, run_effects, repeat_loop-follows}
use flowtile_wm.Hotkeys.Replays.{hold, replay_action-balances}
use flowtile_wm.Base.Text.{codes, split, trim_start, parse_u32}
use flowtile_wm.Hotkeys.Trigger.{
  several_keys, modifier_named, function_key, without_f, resolve_virtual_key, trigger_tokens,
  scan_tokens, parse_trigger,
}
use flowtile_wm.Hotkeys.Triggers.{described, parse_trigger-described}

-- The values of the documentation.
abbrev win32 : Win32
win32 = record {
  mod_alt = 1;
  mod_control = 2;
  mod_shift = 4;
  mod_win = 8;
  mod_norepeat = 16384;
  vk_shift = 16;
  vk_control = 17;
  vk_menu = 18;
  vk_lwin = 91;
  vk_rwin = 92;
  vk_lshift = 160;
  vk_rshift = 161;
  vk_lcontrol = 162;
  vk_rcontrol = 163;
  vk_lmenu = 164;
  vk_rmenu = 165;
  wm_keydown = 256;
  wm_keyup = 257;
  wm_syskeydown = 260;
  wm_syskeyup = 261;
}

win32-IsWin32 : IsWin32 win32
win32-IsWin32 = record {
  alt = refl;
  control = refl;
  shift = refl;
  win = refl;
  keydown = refl;
  keyup = refl;
  syskeydown = refl;
  syskeyup = refl;
}

-- Win+H scrolls to the left.
abbrev bindings : List NativeHotkeyRegistration
bindings =
    record {
      trigger = "Win+H";
      command = scroll_left;
      register_modifiers = 16392;
      required_modifiers = 8;
      key = 72;
    }
    ∷ []

abbrev press : ℕ → KeyEvent
press vk = record { vk = vk; message = 256; injected = false }

abbrev lift : ℕ → KeyEvent
lift vk = record { vk = vk; message = 257; injected = false }

abbrev win_and_h : List KeyEvent
win_and_h = press 91 ∷ press 72 ∷ []

run-IsConsistent_example : IsConsistent win32 (run win32 win_and_h (new_hotkey_state bindings))
run-IsConsistent_example = run-IsConsistent win32 win32-IsWin32 bindings win_and_h

releases-IsIdle_example : IsIdle (
    run win32
      (releases win32 (run win32 win_and_h (new_hotkey_state bindings)).pressed_keys)
      (run win32 win_and_h (new_hotkey_state bindings)))
releases-IsIdle_example = releases-IsIdle win32 win32-IsWin32 bindings win_and_h

-- The state with the Windows key held back.
abbrev held_back : LowLevelHotkeyState
held_back = run win32 (press 91 ∷ []) (new_hotkey_state bindings)

handle_key_event-IsAnswer_example :
    (false ≡ false)
    × (is_key_down_message win32 256 ≡ true)
    × IsAnswer win32 72 held_back.fallback_registrations
        (insert_key 72 held_back.pressed_keys)
        (handle_key_event win32 72 256 false held_back).0
        scroll_left
unfolding run new_hotkey_state handle_key_event is_keyboard_message is_key_down_message is_win_vk
    starts_prefix has_pure_win_bindings active_modifier_mask insert_key is_shift_vk is_alt_vk
    is_control_vk pending_key_down is_pending_modifier_vk find_registration
handle_key_event-IsAnswer_example =
    handle_key_event-IsAnswer win32 72 256 false held_back scroll_left refl

-- Win+S is replayed, and leaves its key in both sets.
chord_test :
    run win32 (press 91 ∷ press 83 ∷ []) (new_hotkey_state bindings)
    ≡ resting bindings (83 ∷ 91 ∷ []) (83 ∷ []) (91 ∷ 83 ∷ []) true
unfolding run new_hotkey_state is_keyboard_message is_key_down_message is_win_vk starts_prefix
    has_pure_win_bindings active_modifier_mask insert_key is_shift_vk is_alt_vk is_control_vk
    pending_key_down is_pending_modifier_vk find_registration
chord_test = refl

chord_key-stuck_example :
    ((key_down win32 83
        (key_up win32 83
          (resting bindings (83 ∷ 91 ∷ []) (83 ∷ []) (91 ∷ 83 ∷ []) true)).1).0.suppress
      ≡ false)
    × ((key_up win32 83
          (key_down win32 83
            (key_up win32 83
              (resting bindings (83 ∷ 91 ∷ []) (83 ∷ []) (91 ∷ 83 ∷ []) true)).1).1).0.suppress
        ≡ true)
unfolding is_win_vk
chord_key-stuck_example =
    chord_key-stuck win32 83 bindings (83 ∷ 91 ∷ []) (83 ∷ []) (91 ∷ 83 ∷ []) true refl refl refl
      refl

as_hotkey_command_name_trip_example :
    from_hotkey_command (as_hotkey_command_name scroll_left)
    ≡ (if is_console_only scroll_left then none else some scroll_left)
as_hotkey_command_name_trip_example = as_hotkey_command_name_trip scroll_left

repeat_loop-follows_example :
    (running (run_effects win32 win_and_h (new_runtime bindings)) []
      ≡ loop_of
          (repeat_command_while_held (run_runtime win32 win_and_h (new_runtime bindings)).state))
    × (running
          (run_effects win32 win_and_h (new_runtime bindings)
            ++ run_effects win32
                (releases win32
                  (run_runtime win32 win_and_h (new_runtime bindings)).state.pressed_keys)
                (run_runtime win32 win_and_h (new_runtime bindings)))
          []
        ≡ [])
repeat_loop-follows_example = repeat_loop-follows win32 win32-IsWin32 bindings win_and_h

-- Win+Shift+S is replayed.
replay_action-balances_example : hold (replay_action (replay_win_chord 91 (160 ∷ []) 83)) [] ≡ []
replay_action-balances_example = replay_action-balances (replay_win_chord 91 (160 ∷ []) 83)

-- The shortcut of the first binding, with a modifier named twice and in another order, and the errors.
described_test :
    parse_trigger win32 (codes "h + win+WINDOWS")
    ≡ ok (record { register_modifiers = 16392; required_modifiers = 8; key = 72 })
unfolding parse_trigger trigger_tokens split trim_start scan_tokens modifier_named
    resolve_virtual_key
described_test = refl

several_keys_test : parse_trigger win32 (codes "Win+H+L") ≡ err (several_keys (codes "Win+H+L"))
unfolding parse_trigger trigger_tokens split trim_start scan_tokens modifier_named
several_keys_test = refl

-- Any number of `F` is read as one.
doubled_test : resolve_virtual_key (codes "FF1") ≡ resolve_virtual_key (codes "F1")
unfolding resolve_virtual_key trim_start function_key without_f parse_u32
doubled_test = refl

parse_trigger-described_example :
    parse_trigger win32 (codes "Win+Shift+F12") ≡ described win32 (codes "Win+Shift+F12")
parse_trigger-described_example =
    parse_trigger-described win32 win32-IsWin32 (codes "Win+Shift+F12")
