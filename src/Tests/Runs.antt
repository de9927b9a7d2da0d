-- ===== src/Tests/Runs.antt =====
-- The theorems on whole transitions at concrete states.
use flowtile_wm.Base.{◌+◌, ◌≡◌, refl, pos, Ensures, if◌then◌else◌}
use flowtile_wm.Base.Map.{get}
use flowtile_wm.Base.Words.{wrap_u64}
use flowtile_wm.Domain.{normalize_workspace_set, new_state}
use flowtile_wm.Domain.Normal.{IsNormal}
use flowtile_wm.Layout.{inset_rect, padded_tiled_viewport}
use flowtile_wm.Store.{
  dispatch, apply_event, apply_scroll_delta, clamp_scroll_offset, max_scroll_offset,
  workspace_tiled_viewport, workspace_content_width, total_width_from, resolve_column_width, reads,
  modify, pure, ◌>>=◌,
}
use flowtile_wm.Store.ScrollRange.{
  IsScrolled, apply_scroll_delta-IsScrolled, clamp_scroll_offset-IsScrolled,
}
use flowtile_wm.Frame.Dispatch.{Stable, dispatch-Stable, is_ok, dispatch-version}
use flowtile_wm.Frame.Reports.{Reports, dispatch-Reports}
use flowtile_wm.Frame.Normal.{normalize_workspace_set-IsNormal}
use flowtile_wm.Tests.Scene.{scene, scroll_event, workspace_set}

dispatch-Stable_example : Stable scene (dispatch scroll_event scene).1
dispatch-Stable_example = dispatch-Stable scroll_event scene

dispatch-version_example : (dispatch scroll_event scene).1.runtime.state_version ≡ (
    if is_ok (apply_event scroll_event.payload scene).0
    then wrap_u64 (scene.runtime.state_version + 1)
    else scene.runtime.state_version)
dispatch-version_example = dispatch-version scroll_event scene

dispatch-Reports_example :
    Ensures
      (Reports scroll_event scene (dispatch scroll_event scene).1)
      (dispatch scroll_event scene).0
dispatch-Reports_example = dispatch-Reports scroll_event scene

normalize_workspace_set-IsNormal_example : IsNormal 1 1 (normalize_workspace_set 1 scene)
unfolding get
normalize_workspace_set-IsNormal_example =
    normalize_workspace_set-IsNormal 1 workspace_set scene refl

apply_scroll_delta-IsScrolled_example : IsScrolled 1 scene (apply_scroll_delta 1 (pos 100) scene).1
unfolding apply_scroll_delta ◌>>=◌ reads modify pure max_scroll_offset workspace_tiled_viewport
    workspace_content_width total_width_from resolve_column_width padded_tiled_viewport inset_rect
    get new_state
apply_scroll_delta-IsScrolled_example = apply_scroll_delta-IsScrolled 1 (pos 100) scene refl

clamp_scroll_offset-IsScrolled_example : IsScrolled 1 scene (clamp_scroll_offset 1 scene).1
unfolding clamp_scroll_offset ◌>>=◌ reads modify pure max_scroll_offset workspace_tiled_viewport
    workspace_content_width total_width_from resolve_column_width padded_tiled_viewport inset_rect
    get new_state
clamp_scroll_offset-IsScrolled_example = clamp_scroll_offset-IsScrolled 1 scene refl
