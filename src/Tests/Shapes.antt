-- ===== src/Tests/Shapes.antt =====
-- The theorems on rectangles, columns and focus at concrete inputs.
use flowtile_wm.Base.{
  ℕ, ◌+◌, ◌≤◌, ◌<◌, ◌≡◌, refl, pos, ◌+ℤ◌, ◌≤ℤ◌, true, false, some, none, List, [], ◌∷◌, contains,
  max, ok, arith,
}
use flowtile_wm.Base.Map.{Map, get}
use flowtile_wm.Base.Words.{sat_add_i32, as_i32}
use flowtile_wm.Domain.{WindowNode, user_command, all_insets, right, resolve}
use flowtile_wm.Layout.{
  inset_rect, place_windows, ColumnFrame, WindowGeometryProjection, content_width_from,
  resolve_width,
}
use flowtile_wm.Layout.Inside.{IsOnScreen, IsWithin, inset_rect-IsWithin}
use flowtile_wm.Layout.Shares.{
  IsShared, shared_nil, shared_cons, placed_ids, total_height, place_windows-fills,
}
use flowtile_wm.Store.{
  without_window, with_window_back, focus_window, compute_width_resize_metrics, width_range,
  total_width_from,
}
use flowtile_wm.Store.Selections.{IsSelecting, membership_edits-IsSelecting}
use flowtile_wm.Store.FocusAgrees.{AgreesOn, focus_window-AgreesOn}
use flowtile_wm.Store.ResizeRange.{compute_width_resize_metrics-bounds}
use flowtile_wm.Store.WidthAgreement.{total_width-eq-content_width}
use flowtile_wm.Tests.Scene.{scene, screen, monitor, workspace_set, workspace, column, window}

screen-IsOnScreen : IsOnScreen screen
unfolding ◌+ℤ◌
screen-IsOnScreen = record {
  width = omega arith;
  height = omega arith;
  width_fits = omega arith;
  height_fits = omega arith;
  left = (omega arith, omega arith);
  top = (omega arith, omega arith);
  right = omega arith;
  bottom = omega arith;
}

inset_rect-IsWithin_example :
    IsWithin (inset_rect screen (all_insets 16)) screen
    × (1 ≤ (inset_rect screen (all_insets 16)).width)
    × (1 ≤ (inset_rect screen (all_insets 16)).height)
inset_rect-IsWithin_example = inset_rect-IsWithin screen (all_insets 16) screen-IsOnScreen

column-IsSelecting : IsSelecting column
column-IsSelecting = record { active = refl; tab = refl }

membership_edits-IsSelecting_example :
    IsSelecting (without_window 2 column)
    × (contains 2 (without_window 2 column).ordered_window_ids ≡ false)
    × IsSelecting (with_window_back 2 column)
    × (contains 2 (with_window_back 2 column).ordered_window_ids ≡ true)
membership_edits-IsSelecting_example = membership_edits-IsSelecting 2 column column-IsSelecting

focus_window-AgreesOn_example : AgreesOn 1 1 1 1 2 (focus_window 1 1 2 (some 1) user_command scene)
unfolding get
focus_window-AgreesOn_example =
    focus_window-AgreesOn 1 1 2 1 user_command scene monitor workspace_set workspace column refl
      refl refl refl

compute_width_resize_metrics-bounds_example :
    ((width_range screen).min_width
      ≤ (compute_width_resize_metrics right screen screen (pos 700)).target_width)
    × ((compute_width_resize_metrics right screen screen (pos 700)).target_width
        ≤ (width_range screen).max_width)
    × (screen.x ≤ℤ (compute_width_resize_metrics right screen screen (pos 700)).pointer_x)
    × ((compute_width_resize_metrics right screen screen (pos 700)).pointer_x
        ≤ℤ sat_add_i32 screen.x (as_i32 screen.width))
    × (1 ≤ (compute_width_resize_metrics right screen screen (pos 700)).preview_rect.width)
    × ((compute_width_resize_metrics right screen screen (pos 700)).preview_rect.height
        ≤ max screen.height 1)
unfolding sat_add_i32 as_i32 ◌+ℤ◌ flowtile_wm.Base.Words.saturate_i32
compute_width_resize_metrics-bounds_example =
    compute_width_resize_metrics-bounds right screen screen (pos 700) (omega arith)

total_width-eq-content_width_example :
    total_width_from scene 1168 0 (pos 0) (1 ∷ []) ≡ ok (pos 1500)
unfolding content_width_from resolve_width resolve get
total_width-eq-content_width_example =
    total_width-eq-content_width scene 1168 0 0 1500 (1 ∷ []) (omega arith) refl (omega arith)

-- A column of two windows that share 700 pixels.
abbrev frame : ColumnFrame
frame = record {
  x = pos 0;
  column_width = 600;
  tiled_height = 700;
  desired_height_total = 600;
  window_gap = 12;
}

abbrev windows : Map WindowNode
windows = (1, window) ∷ (2, record window { id = 2 }) ∷ []

windows-IsShared : IsShared windows frame (1 ∷ 2 ∷ []) 600
unfolding get
windows-IsShared =
    shared_cons 1 window (2 ∷ []) 300 refl (omega arith)
      (shared_cons 2 (record window { id = 2 }) [] 0 refl (omega arith) shared_nil)

place_windows-fills_example :
    (gs : List WindowGeometryProjection) × (place_windows windows frame (pos 0) 700 (1 ∷ 2 ∷ [])
      ≡ ok gs)
    × (placed_ids gs ≡ 1 ∷ 2 ∷ [])
    × (total_height gs ≡ 700)
place_windows-fills_example =
    place_windows-fills windows frame (pos 0) (1 ∷ 2 ∷ []) windows-IsShared refl (omega arith)
      (omega arith)
