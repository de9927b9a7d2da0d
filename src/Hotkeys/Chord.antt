-- ===== src/Hotkeys/Chord.antt =====
-- What the keyboard hook of apps/core-daemon/src/hotkeys/low_level.rs does with the key of a chord that
-- no registration claims, when that key is pressed again.
use flowtile_wm.Base.{
  ℕ, ◌≡◌, refl, ◌∙◌, Bool, true, false, ◌&&◌, none, List, [], ◌∷◌, ◌==◌, contains, find, any, arith,
}
use flowtile_wm.Base.Sets.{insert_key, remove_key, contains-remove_key}
use flowtile_wm.Hotkeys.Keys.{Win32, is_win_vk, active_modifier_mask}
use flowtile_wm.Hotkeys.State.{NativeHotkeyRegistration, LowLevelHotkeyState}
use flowtile_wm.Hotkeys.Hook.{
  handle_pending_win_key_up, pending_or_prefix, starts_prefix, handle_pending_win_key_down,
  plain_key_down, decided_or_plain, release_prefix, take_suppression, drop_released_trigger,
  release_decision, key_down, key_up,
}

-- A state without an active trigger and without a key held back.
abbrev pub resting :
    List NativeHotkeyRegistration → List ℕ → List ℕ → List ℕ → Bool → LowLevelHotkeyState
resting registrations pressed held_keys releases super_held = record {
  fallback_registrations = registrations;
  pressed_keys = pressed;
  active_trigger = none;
  pending_win_prefix = none;
  suppressed_held_keys = held_keys;
  suppressed_key_releases = releases;
  super_held = super_held;
}

module _ (w : Win32) (vk : ℕ) (registrations : List NativeHotkeyRegistration) where
  key_up-after_chord :
      (pressed held_keys releases : List ℕ) (super_held : Bool)
      → contains vk held_keys ≡ true
      → (key_up w vk (resting registrations pressed held_keys releases super_held)).1
        ≡ resting registrations
            (remove_key vk pressed)
            (remove_key vk held_keys)
            releases
            super_held
  unfolding key_up handle_pending_win_key_up release_prefix take_suppression drop_released_trigger
  key_up-after_chord pressed held_keys releases super_held h = rw h refl

  key_up-stale :
      (pressed held_keys releases : List ℕ) (super_held : Bool)
      → contains vk held_keys ≡ false
      → contains vk releases ≡ true
      → (key_up w vk (resting registrations pressed held_keys releases super_held)).0.suppress
        ≡ true
  unfolding key_up handle_pending_win_key_up release_prefix take_suppression release_decision
  key_up-stale pressed held_keys releases super_held h k = rw (h, k) refl

  find-none :
      (test : NativeHotkeyRegistration → Bool) (rs : List NativeHotkeyRegistration)
      → any (λ r. r.key == vk) rs ≡ false
      → find (λ r. r.key == vk && test r) rs ≡ none
  find-none test [] h = refl
  find-none test (r ∷ rs) h = ground (arith, find-none test rs)

  key_down-plain :
      (pressed held_keys releases : List ℕ) (super_held : Bool)
      → is_win_vk w vk ≡ false
      → any (λ r. r.key == vk) registrations ≡ false
      → contains vk pressed ≡ false
      → key_down w vk (resting registrations pressed held_keys releases super_held) ≡ (
        record { command = none; suppress = false; replay = none },
        resting registrations (insert_key vk pressed) held_keys releases super_held,
      )
  unfolding key_down handle_pending_win_key_down pending_or_prefix starts_prefix decided_or_plain
      plain_key_down
  key_down-plain pressed held_keys releases super_held e n p =
      rw
        (
          p,
          e,
          find-none (λ r. r.required_modifiers == active_modifier_mask w (insert_key vk pressed))
              registrations n,
          p,
        )
        refl

  removed : (keys : List ℕ) → contains vk (remove_key vk keys) ≡ false
  removed keys = contains-remove_key vk vk keys ∙ ground arith

  -- Let a key, other than a Windows key and without a registration, be in both sets of suppressed
  -- keys, as every chord that is replayed leaves it, while no trigger is active and no key held back.
  -- After its release, its next press goes to the application, and the release that follows does not.
  pub chord_key-stuck :
      (pressed held_keys releases : List ℕ) (super_held : Bool)
      → is_win_vk w vk ≡ false
      → any (λ r. r.key == vk) registrations ≡ false
      → contains vk held_keys ≡ true
      → contains vk releases ≡ true
      → ((key_down w vk
            (key_up w vk
              (resting registrations pressed held_keys releases super_held)).1).0.suppress
          ≡ false)
        × ((key_up w vk
              (key_down w vk
                (key_up w vk
                  (resting registrations pressed held_keys releases super_held)).1).1).0.suppress
            ≡ true)
  chord_key-stuck pressed held_keys releases super_held e n h k =
      let first = key_up-after_chord pressed held_keys releases super_held h in
      let second =
        key_down-plain (remove_key vk pressed) (remove_key vk held_keys) releases super_held e n
          (removed pressed) in
      (
        rw (first, second) refl,
        rw (first, second)
            (key_up-stale (insert_key vk (remove_key vk pressed)) (remove_key vk held_keys) releases
              super_held (removed held_keys) k),
      )
