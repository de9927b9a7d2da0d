-- ===== src/Hotkeys/Releases.antt =====
-- A release keeps the keyboard hook of apps/core-daemon/src/hotkeys/low_level.rs consistent, and so
-- does any sequence of key events.
use flowtile_wm.Base.{
  ℕ, ◌≡◌, refl, ◌∙◌, Bool, true, false, not, ◌||◌, Option, none, some, List, [], ◌∷◌, if◌then◌else◌,
  ◌==◌, keep_if, Bool-cases, inl, inr, arith,
}
use flowtile_wm.Base.Sets.{remove_key, contains-remove_key}
use flowtile_wm.Hotkeys.Keys.{
  Win32, IsWin32, is_pending_modifier_vk, is_keyboard_message, is_key_down_message,
  is_key_up_message,
}
use flowtile_wm.Hotkeys.State.{
  NativeHotkeyRegistration, ActiveLowLevelTrigger, PendingWinPrefix, HookDecision,
  LowLevelHotkeyState, new_hotkey_state, swallow, pass_on,
}
use flowtile_wm.Hotkeys.Hook.{
  handle_pending_win_key_up, release_prefix, take_suppression, is_trigger_held,
  drop_released_trigger, key_up, track_super, handle_key_event, KeyEvent, run,
}
use flowtile_wm.Hotkeys.Held.{IsHeld, IsHeldBack, IsConsistent, is_trigger_held-IsHeld}
use flowtile_wm.Hotkeys.Presses.{Leaves, Leaves-pair, Leaves-if, key_down-IsConsistent}

pub take_suppression-same :
    (vk : ℕ) (s : LowLevelHotkeyState)
    → ((take_suppression vk s).1.pressed_keys ≡ s.pressed_keys)
      × ((take_suppression vk s).1.active_trigger ≡ s.active_trigger)
      × ((take_suppression vk s).1.pending_win_prefix ≡ s.pending_win_prefix)
unfolding take_suppression
take_suppression-same vk s = (ground arith, ground arith, ground arith)

module _ (w : Win32) (v : IsWin32 w) where
  -- A key is still held back, unless it is the one that goes up.
  release_prefix-IsHeldBack :
      (o : Option PendingWinPrefix) (vk : ℕ) (s : LowLevelHotkeyState)
      → s.pending_win_prefix ≡ o
      → IsHeldBack w s.pressed_keys s.active_trigger o
      → IsHeldBack w
          (remove_key vk s.pressed_keys)
          s.active_trigger
          (release_prefix w o vk s).1.pending_win_prefix
  unfolding release_prefix
  release_prefix-IsHeldBack none vk s e h = rw e tt
  release_prefix-IsHeldBack (some pending) vk s e (p, q, a) =
      elim (Bool-cases (pending.win_vk == vk)) [
        | inl t ↦ rw t tt
        | inr f ↦
            rw (f, kept (is_pending_modifier_vk w vk), e)
              (rw (contains-remove_key vk pending.win_vk s.pressed_keys, f) p, q, a)
      ]
    where
      kept :
          (b : Bool)
          → (if◌then◌else◌ {A = Option HookDecision × LowLevelHotkeyState} b
              (some swallow, s)
              (none, s)).1.pending_win_prefix
            ≡ s.pending_win_prefix
      kept true = refl
      kept false = refl

  pub release_prefix-same :
      (o : Option PendingWinPrefix) (vk : ℕ) (s : LowLevelHotkeyState)
      → ((release_prefix w o vk s).1.pressed_keys ≡ s.pressed_keys)
        × ((release_prefix w o vk s).1.active_trigger ≡ s.active_trigger)
  unfolding release_prefix
  release_prefix-same none vk s = (refl, refl)
  release_prefix-same (some pending) vk s = (ground arith, ground arith)

  keep_if-IsHeld :
      (o : Option ActiveLowLevelTrigger) (before after : List ℕ)
      → IsHeld w before o
      → IsHeld w after (keep_if o (λ active. is_trigger_held w active after))
  keep_if-IsHeld none before after h = tt
  keep_if-IsHeld (some active) before after h = elim (Bool-cases (is_trigger_held w active after)) [
    | inl t ↦ rw t (is_trigger_held-IsHeld w v active before after h t)
    | inr f ↦ rw f tt
  ]

  keep_if-IsHeldBack :
      (pending : Option PendingWinPrefix) (pressed : List ℕ) (o : Option ActiveLowLevelTrigger)
      (test : ActiveLowLevelTrigger → Bool)
      → IsHeldBack w pressed o pending
      → IsHeldBack w pressed (keep_if o test) pending
  keep_if-IsHeldBack none pressed o test h = tt
  keep_if-IsHeldBack (some pending) pressed o test (p, q, a) = (p, q, rw a refl)

  key_up-IsConsistent :
      (vk : ℕ) (s : LowLevelHotkeyState) → IsConsistent w s → Leaves w (key_up w vk s)
  unfolding key_up handle_pending_win_key_up drop_released_trigger
  key_up-IsConsistent vk s h =
      let s₁ = (handle_pending_win_key_up w vk s).1 in
      let (p₁, a₁) = release_prefix-same s.pending_win_prefix vk s in
      let (p₂, a₂, q₂) = take_suppression-same vk s₁ in
      let s₂ = (take_suppression vk s₁).1 in
      let after = remove_key vk s₂.pressed_keys in
      let prefix = release_prefix-IsHeldBack s.pending_win_prefix vk s refl h.prefix in
      Leaves-pair w _ _
        (keep_if-IsHeld s₂.active_trigger s.pressed_keys after (rw (a₂ ∙ a₁) h.trigger))
        (keep_if-IsHeldBack s₂.pending_win_prefix after s₂.active_trigger
          (λ active. is_trigger_held w active after) (rw (p₂ ∙ p₁, a₂ ∙ a₁, q₂) prefix))

  pub track_super-same :
      (vk message : ℕ) (s : LowLevelHotkeyState)
      → ((track_super w vk message s).pressed_keys ≡ s.pressed_keys)
        × ((track_super w vk message s).active_trigger ≡ s.active_trigger)
        × ((track_super w vk message s).pending_win_prefix ≡ s.pending_win_prefix)
  unfolding track_super
  track_super-same vk message s = (ground arith, ground arith, ground arith)

  track_super-IsConsistent :
      (vk message : ℕ) (s : LowLevelHotkeyState)
      → IsConsistent w s
      → IsConsistent w (track_super w vk message s)
  track_super-IsConsistent vk message s h =
      let (p, a, q) = track_super-same vk message s in
      record { trigger = rw (p, a) h.trigger; prefix = rw (p, a, q) h.prefix }

  handle_key_event-IsConsistent :
      (vk message : ℕ) (injected : Bool) (s : LowLevelHotkeyState)
      → IsConsistent w s
      → Leaves w (handle_key_event w vk message injected s)
  unfolding handle_key_event
  handle_key_event-IsConsistent vk message injected s h =
      let h' = track_super-IsConsistent vk message s h in
      let down = key_down-IsConsistent w v vk _ h' in
      let up = key_up-IsConsistent vk _ h' in
      Leaves-if w (injected || not (is_keyboard_message w message)) _ _
        (Leaves-pair w pass_on s h.trigger h.prefix)
        (Leaves-if w (is_key_down_message w message) _ _ down (
          Leaves-if w (is_key_up_message w message) _ _ up
            (Leaves-pair w pass_on _ h'.trigger h'.prefix)))

  pub run-kept :
      (events : List KeyEvent) (s : LowLevelHotkeyState)
      → IsConsistent w s
      → IsConsistent w (run w events s)
  unfolding run
  run-kept [] s h = h
  run-kept (event ∷ events) s h =
      run-kept events _
        (handle_key_event-IsConsistent event.vk event.message event.injected s h).consistent

  -- After any sequence of key events, the key of the active trigger and every modifier it requires
  -- are pressed, and a key held back is a pressed Windows key without an active trigger beside it.
  -- The masks and messages of Win32 have their documented values.
  pub run-IsConsistent :
      (registrations : List NativeHotkeyRegistration) (events : List KeyEvent)
      → IsConsistent w (run w events (new_hotkey_state registrations))
  unfolding new_hotkey_state
  run-IsConsistent registrations events = run-kept events _ (record { trigger = tt; prefix = tt })
