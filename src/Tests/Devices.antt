-- ===== src/Tests/Devices.antt =====
-- The theorems on counters, the touchpad and the check after an apply at concrete inputs.
use flowtile_wm.Base.{
  ℕ, ◌≤◌, ◌≡◌, refl, not, ◌&&◌, ◌||◌, ◌==◌, any, contains, ◌↔◌, pos, true, false, some, none, List,
  [], ◌∷◌, ◌++◌, ok, All, arith,
}
use flowtile_wm.Base.Map.{put}
use flowtile_wm.Hotkeys.Commands.{from_input_command}
use flowtile_wm.Metrics.Counters.{new_metric, count_error, count_skip, steps, snapshot_metric}
use flowtile_wm.Metrics.Log.{
  Call, duration, error, skip, after_calls, summary, after_calls-summary, average-le_max,
}
use flowtile_wm.Metrics.Interleaving.{finished, first, second, tally, Interleaves-tally}
use flowtile_wm.Touchpad.Gestures.{
  TouchpadConfig, TouchpadBindingSet, three_finger_swipe_right, parse_gesture, normalize_binding,
  insert_bindings, from_config,
}
use flowtile_wm.Touchpad.Swipe.{RawTouchContact, recognize_swipe}
use flowtile_wm.Touchpad.Direction.{swipe, IsSwipe, recognize_swipe_iff}
use flowtile_wm.Touchpad.Sessions.{process_frames, silence, session_of, process_frames-swipe}
use flowtile_wm.Touchpad.Assessment.{disabled, assess_touchpad_override_with_system_setting}
use flowtile_wm.Touchpad.Inserts.{IsBound, AreDistinct}
use flowtile_wm.Touchpad.Ready.{ready-IsBound}
use flowtile_wm.Apply.Platform.{
  PlatformSnapshot, PlatformWindowSnapshot, ApplyOperation, default_presentation, has_hwnd,
  diff_snapshots,
}
use flowtile_wm.Apply.Diff.{diff_snapshots-windows}
use flowtile_wm.Apply.Policy.{
  operations_are_activation_only, has_transient_topology_churn, should_auto_unwind_after_desync,
}
use flowtile_wm.Apply.Validation.{
  Health, Cycle, validate_after_apply, check_snapshot, retry_cycle, after_retry, escalate,
}
use flowtile_wm.Apply.Unwind.{after_cycles, diverged, unwind-le_diverged}

abbrev calls : List Call
calls = duration 40 ∷ skip ∷ duration 20 ∷ error ∷ []

after_calls-summary_example : after_calls calls ≡ summary calls
after_calls-summary_example = after_calls-summary calls

average-le_max_example :
    (snapshot_metric (after_calls calls) "scan").average_duration_us
    ≤ (snapshot_metric (after_calls calls) "scan").max_duration_us
average-le_max_example = average-le_max calls "scan" (omega arith)

Interleaves-tally_example :
    tally (steps (count_error ∷ count_skip ∷ []) new_metric)
    ≡ tally (steps ((count_skip ∷ []) ++ count_error ∷ []) new_metric)
Interleaves-tally_example = Interleaves-tally (second (first finished)) new_metric

recognize_swipe_iff_example :
    (recognize_swipe (swipe 3 100 100 400 150) ≡ some three_finger_swipe_right)
    ↔ IsSwipe three_finger_swipe_right 3 100 100 400 150
recognize_swipe_iff_example =
    recognize_swipe_iff three_finger_swipe_right 3 100 100 400 150 (omega arith) (omega arith)
      (omega arith) (omega arith)

abbrev fingers_at : ℕ → List RawTouchContact
fingers_at x =
    record { contact_id = 0; x = pos x; y = pos 10 }
    ∷ record { contact_id = 1; x = pos x; y = pos 20 }
    ∷ record { contact_id = 2; x = pos x; y = pos 30 }
    ∷ []

process_frames-swipe_example :
    process_frames (fingers_at 100 ∷ (fingers_at 400 ∷ []) ++ [] ∷ []) (record { session = none })
    ≡ (
      silence (fingers_at 100 ∷ fingers_at 400 ∷ [])
          ++ recognize_swipe (session_of (fingers_at 100) (fingers_at 400 ∷ [])) ∷ [],
      record { session = none },
    )
process_frames-swipe_example =
    process_frames-swipe (fingers_at 100) [] (fingers_at 400 ∷ []) refl (refl, tt) refl

abbrev touchpad : TouchpadConfig
touchpad = record {
  override_enabled = true;
  gestures =
      record { gesture = "three-finger-swipe-left"; command = "focus-next" }
      ∷ record { gesture = "three-finger-swipe-right"; command = "focus-prev" }
      ∷ [];
}

ready-IsBound_example :
    (set : TouchpadBindingSet) × (from_config touchpad ≡ ok set)
    × All (IsBound set.bindings) touchpad.gestures
    × AreDistinct touchpad.gestures
    × (true ≡ true)
    × (false ≡ false)
    × (disabled ≡ disabled)
unfolding assess_touchpad_override_with_system_setting from_config insert_bindings normalize_binding
    parse_gesture from_input_command put
ready-IsBound_example = ready-IsBound touchpad disabled refl

-- Two windows that stay one pixel off their places.
abbrev off_by_one : ℕ → PlatformWindowSnapshot
off_by_one hwnd = record {
  hwnd = hwnd;
  title = "editor";
  class_name = "Editor";
  process_id = 1;
  process_name = none;
  rect = record { x = pos 1; y = pos 0; width = 600; height = 800 };
  monitor_binding = "display";
  is_visible = true;
  is_focused = false;
  management_candidate = true;
}

abbrev place : ℕ → ApplyOperation
place hwnd = record {
  hwnd = hwnd;
  rect = record { x = pos 0; y = pos 0; width = 600; height = 800 };
  apply_geometry = true;
  activate = false;
  suppress_visual_gap = false;
  window_switch_animation = none;
  visual_emphasis = none;
  presentation = default_presentation;
}

abbrev stubborn : PlatformSnapshot
stubborn = record {
  foreground_hwnd = none;
  monitors = [];
  windows = off_by_one 7 ∷ off_by_one 8 ∷ [];
}

abbrev cycle : Cycle
cycle = record {
  dry_run = false;
  planned_operations = 2;
  observation_reason = none;
  observed_window_count = 2;
  discovered_windows = 0;
  destroyed_windows = 0;
  first_scan = ok stubborn;
  adapted_platform_min_width = false;
  remaining = place 7 ∷ place 8 ∷ [];
  holds_focus = false;
  retry = ok tt;
  second_scan = ok stubborn;
  remaining_after_retry = place 7 ∷ place 8 ∷ [];
  cleanup_error = none;
}

abbrev healthy : Health
healthy = record { consecutive_desync_cycles = 0; management_enabled = true; degraded_flags = [] }

unwind-le_diverged_example : 3 ≤ diverged (cycle ∷ cycle ∷ cycle ∷ [])
unfolding after_cycles validate_after_apply check_snapshot retry_cycle after_retry escalate
    operations_are_activation_only has_transient_topology_churn should_auto_unwind_after_desync
unwind-le_diverged_example = unwind-le_diverged (cycle ∷ cycle ∷ cycle ∷ []) healthy refl refl refl

-- A window is closed and another one is opened.
abbrev reopened : PlatformSnapshot
reopened = record {
  foreground_hwnd = none;
  monitors = [];
  windows = off_by_one 8 ∷ off_by_one 9 ∷ [];
}

diff_snapshots-windows_example :
    (has_hwnd 7 reopened ≡ (
      (has_hwnd 7 stubborn && not (contains 7 (diff_snapshots stubborn reopened).destroyed_hwnds))
      || any (λ w. w.hwnd == 7) (diff_snapshots stubborn reopened).created_windows))
    × ((contains 7 (diff_snapshots stubborn reopened).destroyed_hwnds && has_hwnd 7 reopened)
        ≡ false)
diff_snapshots-windows_example = diff_snapshots-windows stubborn reopened 7
