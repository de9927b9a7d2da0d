-- ===== src/Hotkeys/Presses.antt =====
-- A press keeps the keyboard hook of apps/core-daemon/src/hotkeys/low_level.rs consistent.
use flowtile_wm.Base.{
  ℕ, ◌≡◌, refl, ◌∙◌, Bool, true, false, not, ◌&&◌, ◌||◌, Option, none, some, List, [], ◌∷◌,
  if◌then◌else◌, ◌==◌, ==_iff, contains, find, Bool-cases, Option-cases, inl, inr, arith,
}
use flowtile_wm.Base.Sets.{insert_key, contains-insert_key}
use flowtile_wm.Hotkeys.Keys.{
  Win32, IsWin32, is_win_vk, is_pending_modifier_vk, active_modifier_mask,
}
use flowtile_wm.Hotkeys.State.{
  PendingWinPrefix, HookDecision, LowLevelHotkeyState, reset, find_registration,
}
use flowtile_wm.Hotkeys.Hook.{
  suppress_pending_modifier_releases, unbound_key_down, pending_key_down, starts_prefix,
  pending_or_prefix, handle_pending_win_key_down, plain_key_down, decided_or_plain, key_down,
}
use flowtile_wm.Hotkeys.Held.{IsHeld, IsHeldBack, IsConsistent, IsConsistent-press, IsHeld-start}

-- What `find` returns passes its test.
pub find-passes {ℓ} :
    {A : Type ℓ} (test : A → Bool) (xs : List A) {a : A} → find test xs ≡ some a → test a ≡ true
find-passes test [] h = cc
find-passes test (x ∷ xs) h = elim (Bool-cases (test x)) [
  | inl t ↦ ground arith
  | inr f ↦ find-passes test xs (ground arith)
]

-- The state after a decision is consistent.
pub record Leaves (w : Win32) (result : HookDecision × LowLevelHotkeyState) : Type 0 where
  pub consistent : IsConsistent w result.1

module _ (w : Win32) where
  pub Leaves-pair :
      (decision : HookDecision) (s : LowLevelHotkeyState)
      → IsHeld w s.pressed_keys s.active_trigger
      → IsHeldBack w s.pressed_keys s.active_trigger s.pending_win_prefix
      → Leaves w (decision, s)
  Leaves-pair decision s h k = record { consistent = record { trigger = h; prefix = k } }

  pub Leaves-if :
      (b : Bool) (x y : HookDecision × LowLevelHotkeyState)
      → Leaves w x
      → Leaves w y
      → Leaves w (if b then x else y)
  Leaves-if true x y h k = h
  Leaves-if false x y h k = k

  unbound_key_down-IsConsistent :
      (win_vk vk : ℕ) (s : LowLevelHotkeyState)
      → IsConsistent w s
      → Leaves w (unbound_key_down w win_vk vk s)
  unfolding unbound_key_down reset suppress_pending_modifier_releases
  unbound_key_down-IsConsistent win_vk vk s h =
      search (Leaves-if, Leaves-pair, h.trigger, tt) depth 8

  module _ (v : IsWin32 w) where
    pending_key_down-IsConsistent :
        (win_vk vk : ℕ) (s : LowLevelHotkeyState)
        → contains vk s.pressed_keys ≡ true
        → IsConsistent w s
        → Leaves w (pending_key_down w win_vk vk s)
    unfolding pending_key_down find_registration suppress_pending_modifier_releases
    pending_key_down-IsConsistent win_vk vk s p h =
        elim (Option-cases (find_registration s vk (active_modifier_mask w s.pressed_keys))) [
          | inl e ↦
              let unbound = unbound_key_down-IsConsistent win_vk vk s h in
              rw e (
                Leaves-if (vk == win_vk || is_win_vk w vk) _ _ (Leaves-pair _ s h.trigger h.prefix)
                  (Leaves-if (is_pending_modifier_vk w vk) _ _ (Leaves-pair _ s h.trigger h.prefix)
                    unbound))
          | inr (r, e) ↦
              let t = find-passes _ s.fallback_registrations e in
              let start =
                IsHeld-start w v vk s.pressed_keys r p
                  ((==_iff r.required_modifiers _).0 (ground (arith, t))) in
              rw e (search (Leaves-if, Leaves-pair, h.trigger, h.prefix, start, tt) depth 8)
        ]

    plain_key_down-IsConsistent :
        (vk : ℕ) (inserted : Bool) (s : LowLevelHotkeyState)
        → contains vk s.pressed_keys ≡ true
        → s.pending_win_prefix ≡ none
        → IsConsistent w s
        → Leaves w (plain_key_down w vk inserted s)
    unfolding plain_key_down
    plain_key_down-IsConsistent vk inserted s p q h =
        elim (Option-cases (
          find (λ r. r.key == vk && r.required_modifiers == active_modifier_mask w s.pressed_keys)
            s.fallback_registrations)) [
              | inl e ↦ rw e (search (Leaves-if, Leaves-pair, h.trigger, h.prefix) depth 8)
              | inr (r, e) ↦
                  let t = find-passes _ s.fallback_registrations e in
                  let start =
                    IsHeld-start w v vk s.pressed_keys r p
                      ((==_iff r.required_modifiers _).0 (ground (arith, t))) in
                  rw (e, q) (search (Leaves-if, Leaves-pair, h.trigger, start, tt) depth 8)
            ]

    decided_or_plain-IsConsistent :
        (o : Option PendingWinPrefix) (vk : ℕ) (inserted : Bool) (s : LowLevelHotkeyState)
        → s.pending_win_prefix ≡ o
        → contains vk s.pressed_keys ≡ true
        → IsConsistent w s
        → Leaves w (decided_or_plain w vk inserted (pending_or_prefix w o vk inserted s))
    unfolding decided_or_plain pending_or_prefix starts_prefix
    decided_or_plain-IsConsistent (some pending) vk inserted s e p h =
        pending_key_down-IsConsistent pending.win_vk vk s p h
    decided_or_plain-IsConsistent none vk inserted s e p h =
        elim (Bool-cases (starts_prefix w vk inserted s)) [
          | inr f ↦ rw f (plain_key_down-IsConsistent vk inserted s p e h)
          | inl t ↦ rw t (Leaves-pair _ _ h.trigger (p, ground (arith, t), ground (arith, t)))
        ]

    pub key_down-IsConsistent :
        (vk : ℕ) (s : LowLevelHotkeyState) → IsConsistent w s → Leaves w (key_down w vk s)
    unfolding key_down handle_pending_win_key_down
    key_down-IsConsistent vk s h =
        decided_or_plain-IsConsistent s.pending_win_prefix vk (not (contains vk s.pressed_keys))
          (record s { pressed_keys = insert_key vk s.pressed_keys }) refl
          (contains-insert_key vk vk s.pressed_keys ∙ ground arith) (IsConsistent-press w vk s h)
