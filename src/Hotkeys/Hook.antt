-- ===== src/Hotkeys/Hook.antt =====
-- How the keyboard hook of apps/core-daemon/src/hotkeys/low_level.rs decides on a key event.
use Prim.Native.Nat.{bit_and}
use flowtile_wm.Base.{
  ℕ, Bool, true, false, not, ◌&&◌, ◌||◌, Option, none, some, List, [], ◌∷◌, if◌then◌else◌, ◌==◌,
  contains, find, is_none, is_some_and, keep_if,
}
use flowtile_wm.Base.Sets.{insert_key, remove_key}
use flowtile_wm.Hotkeys.Keys.{
  Win32, is_key_down_message, is_key_up_message, is_keyboard_message, is_win_vk,
  is_pending_modifier_vk, active_modifier_mask, other_modifiers, pending_modifier_vks,
  lock_workstation_key, start_menu_transfer_key,
}
use flowtile_wm.Hotkeys.Commands.{WatchCommand, repeats_while_held}
use flowtile_wm.Hotkeys.State.{
  NativeHotkeyRegistration, ActiveLowLevelTrigger, PendingWinPrefix, ReplayAction,
  replay_lock_workstation, win_tap, replay_win_chord, HookDecision, LowLevelHotkeyState, pass_on,
  swallow, reset, find_registration, has_pure_win_bindings,
}

-- The arguments of `handle_key_event`.
pub record KeyEvent : Type 0 where
  pub vk : ℕ
  pub message : ℕ
  pub injected : Bool

abbrev insert_keys : List ℕ → List ℕ → List ℕ
insert_keys [] set = set
insert_keys (k ∷ ks) set = insert_keys ks (insert_key k set)

-- The trigger that a registration starts, and the decision that runs its command.
abbrev pub trigger_of : NativeHotkeyRegistration → ℕ → ActiveLowLevelTrigger
trigger_of r vk = record {
  command = r.command;
  primary_key = vk;
  required_modifiers = r.required_modifiers;
  repeat_while_held = repeats_while_held r.command;
}

abbrev pub run_command : WatchCommand → HookDecision
run_command command = record { command = some command; suppress = true; replay = none }

abbrev pub run_replay : ReplayAction → HookDecision
run_replay action = record { command = none; suppress = true; replay = some action }

unfoldable pub repeat_command_while_held : LowLevelHotkeyState → Option WatchCommand
repeat_command_while_held s = elim s.active_trigger [
  | none ↦ none
  | some active ↦ if active.repeat_while_held then some active.command else none
]

-- What `suppress` becomes when a key goes up; `||` leaves the sets after the first `true` alone.
unfoldable pub take_suppression : ℕ → LowLevelHotkeyState → Bool × LowLevelHotkeyState
take_suppression vk s =
    if is_some_and s.active_trigger (λ active. active.primary_key == vk)
    then (true, s)
    else if contains vk s.suppressed_held_keys
    then (true, record s { suppressed_held_keys = remove_key vk s.suppressed_held_keys })
    else (
      contains vk s.suppressed_key_releases,
      record s { suppressed_key_releases = remove_key vk s.suppressed_key_releases },
    )

-- The decision on a release.
unfoldable pub release_decision : Option HookDecision → Bool → HookDecision
release_decision (some decision) suppress = record decision {
  suppress = decision.suppress || suppress;
}
release_decision none suppress = record { command = none; suppress = suppress; replay = none }

module _ (w : Win32) where
  unfoldable pub suppress_pending_modifier_releases : ℕ → LowLevelHotkeyState → LowLevelHotkeyState
  suppress_pending_modifier_releases win_vk s = record s {
    suppressed_key_releases =
        insert_keys (win_vk ∷ other_modifiers w s.pressed_keys win_vk) s.suppressed_key_releases;
  }

  -- The last three passages of `handle_pending_win_key_down`: a key that no registration claims.
  unfoldable pub unbound_key_down : ℕ → ℕ → LowLevelHotkeyState → HookDecision × LowLevelHotkeyState
  unbound_key_down win_vk vk s =
      let only_win = active_modifier_mask w s.pressed_keys == w.mod_win in
      if only_win && vk == start_menu_transfer_key
      then (
        run_replay (win_tap win_vk),
        record s {
          pending_win_prefix = none;
          suppressed_held_keys = insert_key vk s.suppressed_held_keys;
          suppressed_key_releases = insert_key win_vk (insert_key vk s.suppressed_key_releases);
        },
      )
      else if only_win && vk == lock_workstation_key
      then (run_replay replay_lock_workstation, reset s)
      else (
        run_replay (replay_win_chord win_vk (pending_modifier_vks w s.pressed_keys win_vk) vk),
        suppress_pending_modifier_releases win_vk (record s {
          pending_win_prefix = none;
          suppressed_held_keys = insert_key vk s.suppressed_held_keys;
          suppressed_key_releases = insert_key vk s.suppressed_key_releases;
        }),
      )

  -- A key that goes down while the key `win_vk` is held back.
  unfoldable pub pending_key_down : ℕ → ℕ → LowLevelHotkeyState → HookDecision × LowLevelHotkeyState
  unfolding unbound_key_down
  pending_key_down win_vk vk s =
      if vk == win_vk || is_win_vk w vk
      then (swallow, s)
      else if is_pending_modifier_vk w vk
      then (swallow, s)
      else elim (find_registration s vk (active_modifier_mask w s.pressed_keys)) [
        | some r ↦ (
          run_command r.command,
          suppress_pending_modifier_releases win_vk
              (record s { pending_win_prefix = none; active_trigger = some (trigger_of r vk) }),
        )
        | none ↦ unbound_key_down win_vk vk s
      ]

  -- Whether a key that goes down is the Windows key of a possible chord.
  unfoldable pub starts_prefix : ℕ → Bool → LowLevelHotkeyState → Bool
  starts_prefix vk inserted s =
      inserted
      && is_win_vk w vk
      && has_pure_win_bindings w s
      && active_modifier_mask w s.pressed_keys == w.mod_win
      && is_none s.active_trigger

  unfoldable pub pending_or_prefix :
      Option PendingWinPrefix
      → ℕ
      → Bool
      → LowLevelHotkeyState
      → Option HookDecision × LowLevelHotkeyState
  pending_or_prefix (some pending) vk inserted s =
      let (decision, after) = pending_key_down pending.win_vk vk s in (some decision, after)
  pending_or_prefix none vk inserted s =
      if starts_prefix vk inserted s
      then (some swallow, record s { pending_win_prefix = some (record { win_vk = vk }) })
      else (none, s)

  unfoldable pub handle_pending_win_key_down :
      ℕ → Bool → LowLevelHotkeyState → Option HookDecision × LowLevelHotkeyState
  unfolding pending_or_prefix
  handle_pending_win_key_down vk inserted s = pending_or_prefix s.pending_win_prefix vk inserted s

  unfoldable pub release_prefix :
      Option PendingWinPrefix → ℕ → LowLevelHotkeyState → Option HookDecision × LowLevelHotkeyState
  release_prefix none vk s = (none, s)
  release_prefix (some pending) vk s =
      if pending.win_vk == vk
      then (some swallow, record s { pending_win_prefix = none })
      else if is_pending_modifier_vk w vk
      then (some swallow, s)
      else (none, s)

  unfoldable pub handle_pending_win_key_up :
      ℕ → LowLevelHotkeyState → Option HookDecision × LowLevelHotkeyState
  unfolding release_prefix
  handle_pending_win_key_up vk s = release_prefix s.pending_win_prefix vk s

  -- A key down that no pending prefix decides on.
  unfoldable pub plain_key_down :
      ℕ → Bool → LowLevelHotkeyState → HookDecision × LowLevelHotkeyState
  plain_key_down vk inserted s =
      let active_modifiers = active_modifier_mask w s.pressed_keys in
      if not inserted && contains vk s.suppressed_held_keys
      then (swallow, s)
      else if is_some_and s.active_trigger (λ active. active.primary_key == vk)
      then (swallow, s)
      else if inserted
      then elim (find (λ r. r.key == vk && r.required_modifiers == active_modifiers)
          s.fallback_registrations) [
            | some r ↦ (run_command r.command, record s { active_trigger = some (trigger_of r vk) })
            | none ↦ (pass_on, s)
          ]
      else (pass_on, s)

  unfoldable pub decided_or_plain :
      ℕ → Bool → Option HookDecision × LowLevelHotkeyState → HookDecision × LowLevelHotkeyState
  decided_or_plain vk inserted (some decision, s) = (decision, s)
  decided_or_plain vk inserted (none, s) = plain_key_down vk inserted s

  unfoldable pub key_down : ℕ → LowLevelHotkeyState → HookDecision × LowLevelHotkeyState
  unfolding handle_pending_win_key_down decided_or_plain
  key_down vk s =
      let inserted = not (contains vk s.pressed_keys) in
      decided_or_plain vk inserted (
        handle_pending_win_key_down vk inserted
          (record s { pressed_keys = insert_key vk s.pressed_keys }))

  -- Whether the keys of a trigger are still held.
  unfoldable pub is_trigger_held : ActiveLowLevelTrigger → List ℕ → Bool
  is_trigger_held active pressed_keys =
      contains active.primary_key pressed_keys
      && bit_and (active_modifier_mask w pressed_keys) active.required_modifiers
        == active.required_modifiers

  -- `active_trigger = None` if its keys are no longer held.
  unfoldable pub drop_released_trigger : LowLevelHotkeyState → LowLevelHotkeyState
  unfolding is_trigger_held
  drop_released_trigger s = record s {
    active_trigger = keep_if s.active_trigger (λ active. is_trigger_held active s.pressed_keys);
  }

  unfoldable pub key_up : ℕ → LowLevelHotkeyState → HookDecision × LowLevelHotkeyState
  unfolding release_decision handle_pending_win_key_up take_suppression drop_released_trigger
  key_up vk s =
      let (decided, s₁) = handle_pending_win_key_up vk s in
      let (suppress, s₂) = take_suppression vk s₁ in
      (
        release_decision decided suppress,
        drop_released_trigger (record s₂ { pressed_keys = remove_key vk s₂.pressed_keys }),
      )

  unfoldable pub track_super : ℕ → ℕ → LowLevelHotkeyState → LowLevelHotkeyState
  track_super vk message s =
      if is_win_vk w vk
      then if is_key_down_message w message
        then record s { super_held = true }
        else if is_key_up_message w message
        then record s { super_held = false }
        else s
      else s

  unfoldable pub handle_key_event :
      ℕ → ℕ → Bool → LowLevelHotkeyState → HookDecision × LowLevelHotkeyState
  unfolding track_super key_down key_up
  handle_key_event vk message injected s =
      let tracked = track_super vk message s in
      if injected || not (is_keyboard_message w message)
      then (pass_on, s)
      else if is_key_down_message w message
      then key_down vk tracked
      else if is_key_up_message w message
      then key_up vk tracked
      else (pass_on, tracked)

  -- The states that a sequence of key events leads to.
  unfoldable pub run : List KeyEvent → LowLevelHotkeyState → LowLevelHotkeyState
  unfolding handle_key_event
  run [] s = s
  run (event ∷ events) s = run events (handle_key_event event.vk event.message event.injected s).1
