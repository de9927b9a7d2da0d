-- ===== src/Store/Widths.antt =====
-- Column widths and the range of the scroll offset, in crates/wm-core/src/state_store.rs.
use flowtile_wm.Base.{
  ℕ, suc, max, ℤ, pos, Bool, ◌&&◌, ◌||◌, Option, none, some, List, [], ◌∷◌, if◌then◌else◌, ltb,
  ltb_ℤ, ◌==◌, eq_option, is_some_and, length, ok, ok_or, map_err,
}
use flowtile_wm.Base.Map.{get}
use flowtile_wm.Base.Words.{
  capped_i32, sat_add_i32, sat_sub_i32, wrap_sub_i32, max_i32, min_i32, clamp_i32, half_i32,
}
use flowtile_wm.Domain.{
  WorkspaceId, ColumnId, WmState, Column, Rect, is_maximized, is_maximized_column, resolve,
}
use flowtile_wm.Layout.{padded_tiled_viewport, recompute_workspace, WindowGeometryProjection}
use flowtile_wm.Store.Methods.{
  Outcome, unknown_monitor, layout_failed, workspace_or_err, column_or_err,
}
use flowtile_wm.Store.Reading.{◌>>=◌}

unfoldable pub resolve_column_width : Column → ℕ → ℕ
resolve_column_width column monitor_width =
    if is_maximized column.maximized_state || is_maximized_column column.mode
    then max monitor_width 1
    else resolve column.width_semantics monitor_width

unfoldable pub workspace_tiled_viewport : WmState → WorkspaceId → Outcome Rect
workspace_tiled_viewport s workspace_id = do
  workspace ← workspace_or_err s workspace_id
  monitor ← ok_or (get workspace.monitor_id s.monitors) (unknown_monitor workspace.monitor_id)
  ok (padded_tiled_viewport monitor.work_area_rect s.config_projection)

-- The loop of `workspace_content_width`, from column `index` on.
unfoldable pub total_width_from : WmState → ℕ → ℕ → ℤ → List ColumnId → Outcome ℤ
total_width_from s viewport_width index total [] = ok total
total_width_from s viewport_width index total (id ∷ ids) = do
  column ← column_or_err s id
  let wider = sat_add_i32 total (capped_i32 (resolve_column_width column viewport_width))
  total_width_from s viewport_width (suc index)
      (if ltb 0 index
        then sat_add_i32 wider (capped_i32 s.config_projection.layout_spacing.column_gap)
        else wider)
      ids

unfoldable pub workspace_content_width : WmState → WorkspaceId → Outcome ℤ
workspace_content_width s workspace_id = do
  workspace ← workspace_or_err s workspace_id
  viewport ← workspace_tiled_viewport s workspace_id
  total_width_from s viewport.width 0 (pos 0) workspace.strip.ordered_column_ids

unfoldable pub max_scroll_offset : WmState → WorkspaceId → Outcome ℤ
max_scroll_offset s workspace_id = do
  viewport ← workspace_tiled_viewport s workspace_id
  content_width ← workspace_content_width s workspace_id
  ok (max_i32 (wrap_sub_i32 content_width (capped_i32 viewport.width)) (pos 0))

-- The left and right ends of a column on the screen.
pub record Bounds : Type 0 where
  pub left : ℤ
  pub right : ℤ

abbrev geometry_bounds : WindowGeometryProjection → Bounds
geometry_bounds geometry = record {
  left = geometry.rect.x;
  right = sat_add_i32 geometry.rect.x (capped_i32 geometry.rect.width);
}

abbrev join_bounds : Option Bounds → Bounds → Bounds
join_bounds none new = new
join_bounds (some old) new = record {
  left = min_i32 old.left new.left;
  right = max_i32 old.right new.right;
}

-- The fold over the geometries of the windows that belong to the column.
unfoldable pub target_bounds :
    WmState → ColumnId → Option Bounds → List WindowGeometryProjection → Option Bounds
target_bounds s column_id acc [] = acc
target_bounds s column_id acc (geometry ∷ rest) =
    target_bounds s column_id
      (if is_some_and (get geometry.window_id s.windows)
          (λ window. eq_option window.column_id (some column_id))
        then some (join_bounds acc (geometry_bounds geometry))
        else acc)
      rest

-- The scroll offset that shows a column with these ends, before the last clamp.
unfoldable pub desired_offset : Rect → ℤ → ℤ → Bool → Bounds → ℤ
desired_offset viewport scroll_offset max_offset single bounds =
    let viewport_width = capped_i32 viewport.width in
    let viewport_right = sat_add_i32 viewport.x viewport_width in
    let column_width = sat_sub_i32 bounds.right bounds.left in
    if ltb_ℤ column_width viewport_width && single
    then clamp_i32
        (sat_sub_i32 (sat_add_i32 bounds.left (half_i32 column_width)) (half_i32 viewport_width))
        (pos 0) max_offset
    else if ltb_ℤ bounds.left viewport.x
    then sat_add_i32 scroll_offset (sat_sub_i32 bounds.left viewport.x)
    else if ltb_ℤ viewport_right bounds.right
    then sat_add_i32 scroll_offset (sat_sub_i32 bounds.right viewport_right)
    else scroll_offset

-- How far `reveal_column_in_workspace` scrolls, if the column shows a window at all.
unfoldable pub reveal_delta : WmState → WorkspaceId → ColumnId → Outcome (Option ℤ)
reveal_delta s workspace_id column_id = do
  projection ← map_err layout_failed (recompute_workspace s workspace_id)
  workspace ← workspace_or_err s workspace_id
  elim (target_bounds s column_id none projection.window_geometries) [
    | none ↦ ok none
    | some bounds ↦ max_scroll_offset s workspace_id >>= λ max_offset. ok (
        some (
          sat_sub_i32
            (clamp_i32
              (desired_offset projection.viewport workspace.strip.scroll_offset max_offset
                (length workspace.strip.ordered_column_ids == 1) bounds)
              (pos 0) max_offset)
            workspace.strip.scroll_offset))
  ]
