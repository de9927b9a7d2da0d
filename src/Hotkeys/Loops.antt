-- ===== src/Hotkeys/Loops.antt =====
-- The loops that the effects of apps/core-daemon/src/hotkeys/low_level.rs leave running.
use flowtile_wm.Base.{
  ℕ, ◌≡◌, refl, ◌∙◌, Bool, true, false, Option, none, some, List, [], ◌∷◌, ◌++◌, map, reverse,
  Bool-cases, inl, inr,
}
use flowtile_wm.Hotkeys.Keys.{Win32}
use flowtile_wm.Hotkeys.Commands.{WatchCommand}
use flowtile_wm.Hotkeys.State.{ReplayAction, replay_lock_workstation, win_tap, replay_win_chord}
use flowtile_wm.Hotkeys.Runtime.{
  eq_command, Effect, lock_workstation, lower_overview, stop_loop, send_virtual_key, start_loop,
  downs, replay_action, replay_effects, replay_action_needs_shell_screenshot_escape,
  sync_repeat_loop,
}

-- The loops that run after some effects, the latest one first. A loop runs from its start until it is
-- stopped, and the one that is stopped is the latest.
unfoldable pub running : List Effect → List WatchCommand → List WatchCommand
running [] loops = loops
running (start_loop command ∷ es) loops = running es (command ∷ loops)
running (stop_loop ∷ es) [] = running es []
running (stop_loop ∷ es) (command ∷ loops) = running es loops
running (lock_workstation ∷ es) loops = running es loops
running (lower_overview ∷ es) loops = running es loops
running (send_virtual_key vk key_up ∷ es) loops = running es loops

abbrev pub loop_of : Option WatchCommand → List WatchCommand
loop_of none = []
loop_of (some command) = command ∷ []

pub running-append :
    (es fs : List Effect) (loops : List WatchCommand)
    → running (es ++ fs) loops ≡ running fs (running es loops)
unfolding running
running-append [] fs loops = refl
running-append (start_loop command ∷ es) fs loops = running-append es fs (command ∷ loops)
running-append (stop_loop ∷ es) fs [] = running-append es fs []
running-append (stop_loop ∷ es) fs (command ∷ loops) = running-append es fs loops
running-append (lock_workstation ∷ es) fs loops = running-append es fs loops
running-append (lower_overview ∷ es) fs loops = running-append es fs loops
running-append (send_virtual_key vk key_up ∷ es) fs loops = running-append es fs loops

-- The keys that are sent leave the loops alone.
running-keys :
    (key_up : Bool) (vks : List ℕ) (loops : List WatchCommand)
    → running (map (λ vk. send_virtual_key vk key_up) vks) loops ≡ loops
unfolding running
running-keys key_up [] loops = refl
running-keys key_up (vk ∷ vks) loops = running-keys key_up vks loops

running-replay_action :
    (action : ReplayAction) (loops : List WatchCommand)
    → running (replay_action action) loops ≡ loops
unfolding running replay_action
running-replay_action replay_lock_workstation loops = refl
running-replay_action (win_tap win_vk) loops = refl
running-replay_action (replay_win_chord win_vk modifier_vks key_vk) loops =
    running-append (downs (win_vk ∷ modifier_vks ++ key_vk ∷ [])) _ loops
    ∙ running-keys true (key_vk ∷ reverse modifier_vks ++ win_vk ∷ []) _
    ∙ running-keys false (win_vk ∷ modifier_vks ++ key_vk ∷ []) loops

pub running-replay_effects :
    (w : Win32) (action : Option ReplayAction) (loops : List WatchCommand)
    → running (replay_effects w action) loops ≡ loops
unfolding running replay_effects
running-replay_effects w none loops = refl
running-replay_effects w (some action) loops =
    elim (Bool-cases (replay_action_needs_shell_screenshot_escape w action)) [
      | inl t ↦ rw t (running-replay_action action loops)
      | inr f ↦ rw f (running-replay_action action loops)
    ]

-- The recorded loop is the one that runs.
pub running-sync_repeat_loop :
    (recorded command : Option WatchCommand)
    → running (sync_repeat_loop recorded command).0 (loop_of recorded)
      ≡ loop_of (sync_repeat_loop recorded command).1
unfolding running sync_repeat_loop
running-sync_repeat_loop none none = refl
running-sync_repeat_loop none (some command) = refl
running-sync_repeat_loop (some active) none = refl
running-sync_repeat_loop (some active) (some command) =
    elim (Bool-cases (eq_command active command)) [ inl t ↦ rw t refl | inr f ↦ rw f refl ]
