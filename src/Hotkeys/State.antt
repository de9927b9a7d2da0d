-- ===== src/Hotkeys/State.antt =====
-- The state of the keyboard hook of apps/core-daemon/src/hotkeys/low_level.rs. The static flag
-- `SUPER_HELD` is a field of it.
use flowtile_wm.Base.{ℕ, Bool, true, false, ◌&&◌, Option, none, String, List, [], find, any, ◌==◌}
use flowtile_wm.Hotkeys.Keys.{Win32}
use flowtile_wm.Hotkeys.Commands.{WatchCommand}

pub record NativeHotkeyRegistration : Type 0 where
  pub trigger : String
  pub command : WatchCommand
  pub register_modifiers : ℕ
  pub required_modifiers : ℕ
  pub key : ℕ

pub record ActiveLowLevelTrigger : Type 0 where
  pub command : WatchCommand
  pub primary_key : ℕ
  pub required_modifiers : ℕ
  pub repeat_while_held : Bool

pub record PendingWinPrefix : Type 0 where
  pub win_vk : ℕ

pub data ReplayAction : Type 0 where
  replay_lock_workstation : ReplayAction
  win_tap : (win_vk : ℕ) → ReplayAction
  replay_win_chord : (win_vk : ℕ) (modifier_vks : List ℕ) (key_vk : ℕ) → ReplayAction

pub record HookDecision : Type 0 where
  pub command : Option WatchCommand
  pub suppress : Bool
  pub replay : Option ReplayAction

pub record LowLevelHotkeyState : Type 0 where
  pub fallback_registrations : List NativeHotkeyRegistration
  pub pressed_keys : List ℕ
  pub active_trigger : Option ActiveLowLevelTrigger
  pub pending_win_prefix : Option PendingWinPrefix
  pub suppressed_held_keys : List ℕ
  pub suppressed_key_releases : List ℕ
  pub super_held : Bool

-- `HookDecision::default()`, and the decision that only suppresses.
abbrev pub pass_on : HookDecision
pass_on = record { command = none; suppress = false; replay = none }

abbrev pub swallow : HookDecision
swallow = record { command = none; suppress = true; replay = none }

unfoldable pub new_hotkey_state : List NativeHotkeyRegistration → LowLevelHotkeyState
new_hotkey_state fallback_registrations = record {
  fallback_registrations = fallback_registrations;
  pressed_keys = [];
  active_trigger = none;
  pending_win_prefix = none;
  suppressed_held_keys = [];
  suppressed_key_releases = [];
  super_held = false;
}

unfoldable pub reset : LowLevelHotkeyState → LowLevelHotkeyState
reset s = record s {
  pressed_keys = [];
  active_trigger = none;
  pending_win_prefix = none;
  suppressed_held_keys = [];
  suppressed_key_releases = [];
  super_held = false;
}

unfoldable pub find_registration : LowLevelHotkeyState → ℕ → ℕ → Option NativeHotkeyRegistration
find_registration s key required_modifiers =
    find (λ r. r.required_modifiers == required_modifiers && r.key == key) s.fallback_registrations

unfoldable pub has_pure_win_bindings : Win32 → LowLevelHotkeyState → Bool
has_pure_win_bindings w s = any (λ r. r.required_modifiers == w.mod_win) s.fallback_registrations
