-- ===== src/Hotkeys/Settles.antt =====
-- What the keyboard hook of apps/core-daemon/src/hotkeys/low_level.rs keeps once all keys are up.
use flowtile_wm.Base.{
  ℕ, ◌≡◌, refl, ◌∙◌, Bool, true, false, not, ◌&&◌, ◌||◌, Option, none, some, List, [], ◌∷◌, map, ap,
  if◌then◌else◌, contains, arith,
}
use flowtile_wm.Base.Sets.{remove_key, contains-remove_key, empty_if}
use flowtile_wm.Hotkeys.Keys.{
  Win32, IsWin32, is_keyboard_message, is_key_down_message, is_key_up_message,
}
use flowtile_wm.Hotkeys.State.{
  NativeHotkeyRegistration, ActiveLowLevelTrigger, PendingWinPrefix, LowLevelHotkeyState,
  new_hotkey_state,
}
use flowtile_wm.Hotkeys.Hook.{
  handle_pending_win_key_up, key_up, track_super, handle_key_event, drop_released_trigger, KeyEvent,
  run,
}
use flowtile_wm.Hotkeys.Held.{IsHeld, IsHeldBack}
use flowtile_wm.Hotkeys.Releases.{
  release_prefix-same, take_suppression-same, track_super-same, run-kept, run-IsConsistent,
}

-- The events of letting go of some keys.
abbrev pub releases : Win32 → List ℕ → List KeyEvent
releases w keys = map (λ vk. record { vk = vk; message = w.wm_keyup; injected = false }) keys

-- Nothing pressed, no trigger, nothing held back.
pub record IsIdle (s : LowLevelHotkeyState) : Type 0 where
  pub pressed : s.pressed_keys ≡ []
  pub trigger : s.active_trigger ≡ none
  pub prefix : s.pending_win_prefix ≡ none

-- The branch that a release takes.
third_branch {ℓ} :
    {A : Type ℓ} (keyboard down up : Bool) (ignored pressed released other : A)
    → keyboard ≡ true
    → down ≡ false
    → up ≡ true
    → (if false || not keyboard
        then ignored
        else if down
        then pressed
        else if up
        then released
        else other)
      ≡ released
third_branch keyboard down up ignored pressed released other k d u = rw (k, d, u) refl

module _ (w : Win32) (v : IsWin32 w) where
  key_up-pressed :
      (vk : ℕ) (s : LowLevelHotkeyState)
      → (key_up w vk s).1.pressed_keys ≡ remove_key vk s.pressed_keys
  unfolding key_up handle_pending_win_key_up drop_released_trigger
  key_up-pressed vk s =
      let (p₁, _) = release_prefix-same w v s.pending_win_prefix vk s in
      let (p₂, _, _) = take_suppression-same vk (handle_pending_win_key_up w vk s).1 in
      ap (remove_key vk) (p₂ ∙ p₁)

  keyup_tests :
      (is_keyboard_message w w.wm_keyup ≡ true)
      × (is_key_down_message w w.wm_keyup ≡ false)
      × (is_key_up_message w w.wm_keyup ≡ true)
  unfolding is_keyboard_message is_key_down_message is_key_up_message
  keyup_tests = (ground arith, rw (v.keyup, v.keydown, v.syskeydown) refl, ground arith)

  release-pressed :
      (vk : ℕ) (s : LowLevelHotkeyState)
      → (handle_key_event w vk w.wm_keyup false s).1.pressed_keys ≡ remove_key vk s.pressed_keys
  unfolding handle_key_event
  release-pressed vk s =
      let (keyboard, down, up) = keyup_tests in
      let (p, _, _) = track_super-same w v vk w.wm_keyup s in
      ap (λ r. r.1.pressed_keys)
        (third_branch (is_keyboard_message w w.wm_keyup) (is_key_down_message w w.wm_keyup)
          (is_key_up_message w w.wm_keyup) _ _ (key_up w vk (track_super w vk w.wm_keyup s)) _
          keyboard down up)
      ∙ key_up-pressed vk (track_super w vk w.wm_keyup s)
      ∙ ap (remove_key vk) p

  run-releases :
      (keys : List ℕ) (a : ℕ) (s : LowLevelHotkeyState)
      → contains a (run w (releases w keys) s).pressed_keys
        ≡ (contains a s.pressed_keys && not (contains a keys))
  unfolding run
  run-releases [] a s = ground arith
  run-releases (k ∷ keys) a s =
      run-releases keys a _
      ∙ rw (release-pressed k s, contains-remove_key k a s.pressed_keys) (ground arith)

  not_held : (o : Option ActiveLowLevelTrigger) → IsHeld w [] o → o ≡ none
  not_held none h = refl
  not_held (some active) (p, _) = cc

  not_held_back :
      (o : Option PendingWinPrefix) (active : Option ActiveLowLevelTrigger)
      → IsHeldBack w [] active o
      → o ≡ none
  not_held_back none active h = refl
  not_held_back (some pending) active (p, _, _) = cc

  -- After any sequence of key events, letting go of the pressed keys, in any order that the set of
  -- them has, leaves no key pressed, no active trigger and no key held back. The masks and messages
  -- of Win32 have their documented values.
  pub releases-IsIdle :
      (registrations : List NativeHotkeyRegistration) (events : List KeyEvent)
      → IsIdle (
          run w
            (releases w (run w events (new_hotkey_state registrations)).pressed_keys)
            (run w events (new_hotkey_state registrations)))
  releases-IsIdle registrations events =
      let s = run w events (new_hotkey_state registrations) in
      let t = run w (releases w s.pressed_keys) s in
      let h =
        run-kept w v (releases w s.pressed_keys) s (run-IsConsistent w v registrations events) in
      let empty = empty_if t.pressed_keys (λ a. run-releases s.pressed_keys a s ∙ ground arith) in
      record {
        pressed = empty;
        trigger = not_held t.active_trigger (rw⁻¹ empty h.trigger);
        prefix = not_held_back t.pending_win_prefix t.active_trigger (rw⁻¹ empty h.prefix);
      }
