-- ===== src/Hotkeys/Held.antt =====
-- What holds of the keyboard hook of apps/core-daemon/src/hotkeys/low_level.rs after any sequence of
-- key events.
use flowtile_wm.Base.{ℕ, ◌≡◌, ◌∙◌, true, Option, none, some, List, contains, arith}
use flowtile_wm.Base.Sets.{insert_key, contains-insert_key}
use flowtile_wm.Hotkeys.Keys.{Win32, IsWin32, is_win_vk, active_modifier_mask}
use flowtile_wm.Hotkeys.State.{
  NativeHotkeyRegistration, ActiveLowLevelTrigger, PendingWinPrefix, LowLevelHotkeyState,
}
use flowtile_wm.Hotkeys.Hook.{trigger_of, is_trigger_held}
use flowtile_wm.Hotkeys.Masks.{
  Modifiers, mask_of, leb_modifiers, leb_modifiers_refl, leb_modifiers_trans,
  leb_modifiers-insert_key, held, active_modifier_mask-eq, bit_and-leb_modifiers,
}

-- The key of the active trigger and all its modifiers are pressed.
abbrev pub IsHeld : Win32 → List ℕ → Option ActiveLowLevelTrigger → Type 0
IsHeld w pressed none = Unit
IsHeld w pressed (some active) =
    (contains active.primary_key pressed ≡ true)
    × ((n : Modifiers) × (active.required_modifiers ≡ mask_of n)
        × (leb_modifiers n (held w pressed) ≡ true))

-- The key held back is a pressed Windows key, and no trigger is active beside it.
abbrev pub IsHeldBack :
    Win32 → List ℕ → Option ActiveLowLevelTrigger → Option PendingWinPrefix → Type 0
IsHeldBack w pressed active none = Unit
IsHeldBack w pressed active (some pending) =
    (contains pending.win_vk pressed ≡ true) × (is_win_vk w pending.win_vk ≡ true) × (active ≡ none)

pub record IsConsistent (w : Win32) (s : LowLevelHotkeyState) : Type 0 where
  pub trigger : IsHeld w s.pressed_keys s.active_trigger
  pub prefix : IsHeldBack w s.pressed_keys s.active_trigger s.pending_win_prefix

module _ (w : Win32) where
  IsHeld-insert_key :
      (k : ℕ) (pressed : List ℕ) (active : Option ActiveLowLevelTrigger)
      → IsHeld w pressed active
      → IsHeld w (insert_key k pressed) active
  IsHeld-insert_key k pressed none h = tt
  IsHeld-insert_key k pressed (some active) (p, (n, e, l)) = (
    rw (contains-insert_key k active.primary_key pressed, p) (ground arith),
    (n, e, leb_modifiers_trans n _ _ l (leb_modifiers-insert_key w k pressed)),
  )

  IsHeldBack-insert_key :
      (k : ℕ) (pressed : List ℕ) (active : Option ActiveLowLevelTrigger)
      (pending : Option PendingWinPrefix)
      → IsHeldBack w pressed active pending
      → IsHeldBack w (insert_key k pressed) active pending
  IsHeldBack-insert_key k pressed active none h = tt
  IsHeldBack-insert_key k pressed active (some pending) (p, q, a) =
      (rw (contains-insert_key k pending.win_vk pressed, p) (ground arith), q, a)

  -- One more pressed key.
  pub IsConsistent-press :
      (k : ℕ) (s : LowLevelHotkeyState)
      → IsConsistent w s
      → IsConsistent w (record s { pressed_keys = insert_key k s.pressed_keys })
  IsConsistent-press k s h = record {
    trigger = IsHeld-insert_key k s.pressed_keys s.active_trigger h.trigger;
    prefix = IsHeldBack-insert_key k s.pressed_keys s.active_trigger s.pending_win_prefix h.prefix;
  }

  -- A trigger that starts with exactly its modifiers.
  pub IsHeld-start :
      IsWin32 w
      → (vk : ℕ) (pressed : List ℕ) (r : NativeHotkeyRegistration) → contains vk pressed ≡ true
      → r.required_modifiers ≡ active_modifier_mask w pressed
      → IsHeld w pressed (some (trigger_of r vk))
  IsHeld-start v vk pressed r p e = (
    p,
    (held w pressed, e ∙ active_modifier_mask-eq w v pressed, leb_modifiers_refl (held w pressed)),
  )

  -- The test on release decides whether a trigger is held, if its mask is one of modifiers.
  pub is_trigger_held-IsHeld :
      IsWin32 w
      → (active : ActiveLowLevelTrigger) (before after : List ℕ) → IsHeld w before (some active)
      → is_trigger_held w active after ≡ true
      → IsHeld w after (some active)
  unfolding is_trigger_held
  is_trigger_held-IsHeld v active before after (p, (n, e, l)) t =
      let t' =
        rw (active_modifier_mask-eq w v after, e, bit_and-leb_modifiers (held w after) n) at t in
      (ground (arith, t'), (n, e, ground (arith, t')))
