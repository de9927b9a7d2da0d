-- ===== src/Hotkeys/Replays.antt =====
-- What the keys that a replay of apps/core-daemon/src/hotkeys/low_level.rs sends leave pressed.
use mathlib.Core.List.{reverse-cons}
use flowtile_wm.Base.{
  ℕ, ◌≡◌, refl, ◌∙◌, true, false, not, ◌&&◌, ◌||◌, List, [], ◌∷◌, ◌++◌, reverse, contains, arith,
}
use flowtile_wm.Base.Sets.{
  insert_key, contains-insert_key, remove_key, contains-remove_key, empty_if,
}
use flowtile_wm.Hotkeys.State.{ReplayAction, replay_lock_workstation, win_tap, replay_win_chord}
use flowtile_wm.Hotkeys.Runtime.{
  Effect, lock_workstation, lower_overview, stop_loop, send_virtual_key, start_loop, downs, ups,
  replay_action,
}

-- The keys that applications see pressed after some effects.
unfoldable pub hold : List Effect → List ℕ → List ℕ
hold [] keys = keys
hold (send_virtual_key vk false ∷ es) keys = hold es (insert_key vk keys)
hold (send_virtual_key vk true ∷ es) keys = hold es (remove_key vk keys)
hold (lock_workstation ∷ es) keys = hold es keys
hold (lower_overview ∷ es) keys = hold es keys
hold (stop_loop ∷ es) keys = hold es keys
hold (start_loop command ∷ es) keys = hold es keys

-- Some keys go down, and then some go up.
hold-ups :
    (vks : List ℕ) (a : ℕ) (keys : List ℕ)
    → contains a (hold (ups vks) keys) ≡ (contains a keys && not (contains a vks))
unfolding hold
hold-ups [] a keys = ground arith
hold-ups (vk ∷ vks) a keys =
    hold-ups vks a (remove_key vk keys) ∙ rw (contains-remove_key vk a keys) (ground arith)

hold-downs-ups :
    (presses lifts : List ℕ) (a : ℕ) (keys : List ℕ)
    → contains a (hold (downs presses ++ ups lifts) keys)
      ≡ ((contains a presses || contains a keys) && not (contains a lifts))
unfolding hold
hold-downs-ups [] lifts a keys = hold-ups lifts a keys
hold-downs-ups (vk ∷ presses) lifts a keys =
    hold-downs-ups presses lifts a (insert_key vk keys)
    ∙ rw (contains-insert_key vk a keys) (ground arith)

contains-append :
    (a : ℕ) (xs ys : List ℕ) → contains a (xs ++ ys) ≡ (contains a xs || contains a ys)
contains-append a [] ys = refl
contains-append a (x ∷ xs) ys = ground (arith, contains-append a xs ys)

contains-reverse : (a : ℕ) (xs : List ℕ) → contains a (reverse xs) ≡ contains a xs
contains-reverse a [] = refl
contains-reverse a (x ∷ xs) =
    let last = contains-append a (reverse xs) (x ∷ []) in
    let rest = contains-reverse a xs in rw (reverse-cons x xs, last, rest) (ground arith)

chord_balances :
    (win_vk key_vk : ℕ) (modifier_vks : List ℕ) (a : ℕ)
    → contains a (hold (replay_action (replay_win_chord win_vk modifier_vks key_vk)) []) ≡ false
unfolding replay_action
chord_balances win_vk key_vk modifier_vks a =
    let down = contains-append a modifier_vks (key_vk ∷ []) in
    let up = contains-append a (reverse modifier_vks) (win_vk ∷ []) in
    let turned = contains-reverse a modifier_vks in
    hold-downs-ups (win_vk ∷ modifier_vks ++ key_vk ∷ [])
      (key_vk ∷ reverse modifier_vks ++ win_vk ∷ []) a []
    ∙ rw (down, up, turned) (ground arith)

-- From no pressed key, the keys that a replay sends leave no key pressed.
pub replay_action-balances : (action : ReplayAction) → hold (replay_action action) [] ≡ []
unfolding replay_action hold insert_key remove_key
replay_action-balances replay_lock_workstation = refl
replay_action-balances (win_tap win_vk) = ground arith
replay_action-balances (replay_win_chord win_vk modifier_vks key_vk) =
    empty_if _ (chord_balances win_vk key_vk modifier_vks)
