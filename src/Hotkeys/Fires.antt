-- ===== src/Hotkeys/Fires.antt =====
-- When the keyboard hook of apps/core-daemon/src/hotkeys/low_level.rs runs a command.
use flowtile_wm.Base.{
  ℕ, ◌≡◌, refl, sym, ap, ◌∙◌, Bool, true, false, not, ◌&&◌, ◌||◌, Option, none, some, List, [], ◌∷◌,
  if◌then◌else◌, ◌==◌, contains, find, Bool-cases, Option-cases, inl, inr, arith,
}
use flowtile_wm.Base.Sets.{insert_key}
use flowtile_wm.Hotkeys.Keys.{
  Win32, is_win_vk, is_pending_modifier_vk, is_keyboard_message, is_key_down_message,
  is_key_up_message, active_modifier_mask,
}
use flowtile_wm.Hotkeys.Commands.{WatchCommand}
use flowtile_wm.Hotkeys.State.{
  NativeHotkeyRegistration, PendingWinPrefix, HookDecision, LowLevelHotkeyState, pass_on,
  find_registration,
}
use flowtile_wm.Hotkeys.Hook.{
  run_command, handle_pending_win_key_up, pending_or_prefix, starts_prefix,
  handle_pending_win_key_down, unbound_key_down, pending_key_down, plain_key_down, decided_or_plain,
  release_prefix, release_decision, key_down, key_up, track_super, handle_key_event,
}

-- The first registration for the key with exactly the modifiers that are held has the command, and
-- the key is suppressed.
pub record IsAnswer (w : Win32) (vk : ℕ) (registrations : List NativeHotkeyRegistration)
    (pressed : List ℕ) (decision : HookDecision) (command : WatchCommand) : Type 0 where
  pub registration : NativeHotkeyRegistration
  pub first :
      find
        (λ r. r.required_modifiers == active_modifier_mask w pressed && r.key == vk)
        registrations
      ≡ some registration
  pub its_command : registration.command ≡ command
  pub suppresses : decision.suppress ≡ true

record Answers (w : Win32) (vk : ℕ) (registrations : List NativeHotkeyRegistration)
    (pressed : List ℕ) (result : HookDecision × LowLevelHotkeyState) : Type 0 where
  answer :
      (command : WatchCommand)
      → result.0.command ≡ some command
      → IsAnswer w vk registrations pressed result.0 command

-- The order of the two comparisons does not matter.
find-swapped :
    (vk mask : ℕ) (rs : List NativeHotkeyRegistration)
    → find (λ r. r.required_modifiers == mask && r.key == vk) rs
      ≡ find (λ r. r.key == vk && r.required_modifiers == mask) rs
find-swapped vk mask [] = refl
find-swapped vk mask (r ∷ rs) = ground (arith, find-swapped vk mask rs)

module _ (w : Win32) (vk : ℕ) (registrations : List NativeHotkeyRegistration)
    (pressed : List ℕ) where
  Answers-silent :
      (decision : HookDecision) (s : LowLevelHotkeyState)
      → decision.command ≡ none
      → Answers w vk registrations pressed (decision, s)
  Answers-silent decision s e = record { answer = λ command h. cc }

  Answers-if :
      (b : Bool) (x y : HookDecision × LowLevelHotkeyState)
      → Answers w vk registrations pressed x
      → Answers w vk registrations pressed y
      → Answers w vk registrations pressed (if b then x else y)
  Answers-if true x y h k = h
  Answers-if false x y h k = k

  Answers-run :
      (r : NativeHotkeyRegistration) (s : LowLevelHotkeyState)
      → find
          (λ r'. r'.required_modifiers == active_modifier_mask w pressed && r'.key == vk)
          registrations
        ≡ some r
      → Answers w vk registrations pressed (run_command r.command, s)
  Answers-run r s e = record {
    answer =
        λ command h. record { registration = r; first = e; its_command = cc; suppresses = refl };
  }

module _ (w : Win32) (vk : ℕ) (s : LowLevelHotkeyState) where
  abbrev Answered : HookDecision × LowLevelHotkeyState → Type 0
  Answered = Answers w vk s.fallback_registrations s.pressed_keys

  unbound_key_down-Answers : (win_vk : ℕ) → Answered (unbound_key_down w win_vk vk s)
  unfolding unbound_key_down
  unbound_key_down-Answers win_vk = search (Answers-if, Answers-silent) depth 8

  pending_key_down-Answers : (win_vk : ℕ) → Answered (pending_key_down w win_vk vk s)
  unfolding pending_key_down find_registration
  pending_key_down-Answers win_vk =
      elim (Option-cases (find_registration s vk (active_modifier_mask w s.pressed_keys))) [
        | inl e ↦
            let unbound = unbound_key_down-Answers win_vk in
            rw e (
              Answers-if w vk _ _ (vk == win_vk || is_win_vk w vk) _ _
                (Answers-silent w vk _ _ _ s refl)
                (Answers-if w vk _ _ (is_pending_modifier_vk w vk) _ _
                  (Answers-silent w vk _ _ _ s refl) unbound))
        | inr (r, e) ↦
            let run = Answers-run w vk s.fallback_registrations s.pressed_keys r in
            rw e (search (Answers-if, Answers-silent, run, e) depth 8)
      ]

  plain_key_down-Answers : (inserted : Bool) → Answered (plain_key_down w vk inserted s)
  unfolding plain_key_down
  plain_key_down-Answers inserted =
      elim (Option-cases (
        find (λ r. r.key == vk && r.required_modifiers == active_modifier_mask w s.pressed_keys)
          s.fallback_registrations)) [
            | inl e ↦ rw e (search (Answers-if, Answers-silent) depth 8)
            | inr (r, e) ↦
                let swapped =
                  find-swapped vk (active_modifier_mask w s.pressed_keys) s.fallback_registrations
                  ∙ e in
                let run = Answers-run w vk s.fallback_registrations s.pressed_keys r in
                rw e (search (Answers-if, Answers-silent, run, swapped) depth 8)
          ]

  decided_or_plain-Answers :
      (o : Option PendingWinPrefix) (inserted : Bool)
      → s.pending_win_prefix ≡ o
      → Answered (decided_or_plain w vk inserted (pending_or_prefix w o vk inserted s))
  unfolding decided_or_plain pending_or_prefix
  decided_or_plain-Answers (some pending) inserted e = pending_key_down-Answers pending.win_vk
  decided_or_plain-Answers none inserted e = elim (Bool-cases (starts_prefix w vk inserted s)) [
    | inr f ↦ rw f (plain_key_down-Answers inserted)
    | inl t ↦ rw t (Answers-silent w vk _ _ _ _ refl)
  ]

key_down-Answers :
    (w : Win32) (vk : ℕ) (s : LowLevelHotkeyState)
    → Answers w vk s.fallback_registrations (insert_key vk s.pressed_keys) (key_down w vk s)
unfolding key_down handle_pending_win_key_down
key_down-Answers w vk s =
    decided_or_plain-Answers w vk (record s { pressed_keys = insert_key vk s.pressed_keys })
      s.pending_win_prefix (not (contains vk s.pressed_keys)) refl

release_decision-silent :
    (w : Win32) (o : Option PendingWinPrefix) (vk : ℕ) (s : LowLevelHotkeyState) (suppress : Bool)
    → (release_decision (release_prefix w o vk s).0 suppress).command ≡ none
unfolding release_decision release_prefix
release_decision-silent w none vk s suppress = refl
release_decision-silent w (some pending) vk s suppress = elim (Bool-cases (pending.win_vk == vk)) [
  | inl t ↦ rw t refl
  | inr f ↦ elim (Bool-cases (is_pending_modifier_vk w vk)) [
    | inl t ↦ rw (f, t) refl
    | inr g ↦ rw (f, g) refl
  ]
]

key_up-silent : (w : Win32) (vk : ℕ) (s : LowLevelHotkeyState) → (key_up w vk s).0.command ≡ none
unfolding key_up handle_pending_win_key_up
key_up-silent w vk s = release_decision-silent w s.pending_win_prefix vk s _

-- The branch that a command comes from.
pressed_branch :
    (injected keyboard down up : Bool)
    (ignored pressed released other : HookDecision × LowLevelHotkeyState) (command : WatchCommand)
    → ignored.0.command ≡ none
    → released.0.command ≡ none
    → other.0.command ≡ none
    → ◌≡◌ {A = Option WatchCommand}
        (if◌then◌else◌ {A = HookDecision × LowLevelHotkeyState}
          (injected || not keyboard)
          ignored
          (if down then pressed else if up then released else other)).0.command
        (some command)
    → (injected ≡ false)
      × (down ≡ true)
      × ((if injected || not keyboard
            then ignored
            else if down
            then pressed
            else if up
            then released
            else other)
          ≡ pressed)
pressed_branch true keyboard down up ignored pressed released other command a b c h = cc
pressed_branch false false down up ignored pressed released other command a b c h = cc
pressed_branch false true true up ignored pressed released other command a b c h =
    (refl, refl, refl)
pressed_branch false true false true ignored pressed released other command a b c h = cc
pressed_branch false true false false ignored pressed released other command a b c h = cc

track_super-kept :
    (w : Win32) (vk message : ℕ) (s : LowLevelHotkeyState)
    → ((track_super w vk message s).fallback_registrations ≡ s.fallback_registrations)
      × ((track_super w vk message s).pressed_keys ≡ s.pressed_keys)
unfolding track_super
track_super-kept w vk message s = (ground arith, ground arith)

-- A command runs only on a press that is not injected; the key is suppressed, and the command is that
-- of the first registration for the key with exactly the modifiers that are then held.
pub handle_key_event-IsAnswer :
    (w : Win32) (vk message : ℕ) (injected : Bool) (s : LowLevelHotkeyState)
    (command : WatchCommand)
    → (handle_key_event w vk message injected s).0.command ≡ some command
    → (injected ≡ false)
      × (is_key_down_message w message ≡ true)
      × IsAnswer w vk s.fallback_registrations
          (insert_key vk s.pressed_keys)
          (handle_key_event w vk message injected s).0
          command
unfolding handle_key_event
handle_key_event-IsAnswer w vk message injected s command h =
    let after = track_super w vk message s in
    let (pressed, down, same) =
      pressed_branch injected (is_keyboard_message w message) (is_key_down_message w message)
        (is_key_up_message w message) (pass_on, s) (key_down w vk after) (key_up w vk after)
        (pass_on, after) command refl (key_up-silent w vk after) refl h in
    let (f, p) = track_super-kept w vk message s in
    let k = (key_down-Answers w vk after).answer command (ap (λ r. r.0.command) (sym same) ∙ h) in
    (
      pressed,
      down,
      record {
        registration = k.registration;
        first = rw (f, p) at k.first;
        its_command = k.its_command;
        suppresses = ap (λ r. r.0.suppress) same ∙ k.suppresses;
      },
    )
