-- ===== src/Layout/Workspace.antt =====
-- `recompute_workspace` of crates/layout-engine/src/lib.rs.
use flowtile_wm.Base.{
  ℕ, ℤ, ◌&&◌, ◌||◌, Option, List, [], ◌∷◌, ◌++◌, if◌then◌else◌, ltb, ◌==◌, is_some_and, keep_if,
  is_empty, Result, ok, ok_or,
}
use flowtile_wm.Base.Map.{get, Map}
use flowtile_wm.Base.Words.{wrap_add_i32, as_i32, capped_i32}
use flowtile_wm.Domain.{
  WorkspaceId, ColumnId, WindowId, Rect, Column, WindowNode, is_fullscreen_layer, ConfigProjection,
  LayoutSpacing, WmState,
}
use flowtile_wm.Layout.Insets.{padded_tiled_viewport, default_floating_rect}
use flowtile_wm.Layout.Columns.{
  LayoutError, workspace_missing, monitor_missing, column_missing, window_missing,
  WindowGeometryProjection, ◌>>=◌, resolve_width, strip_origin_x, content_width_from, place_column,
}

pub record WorkspaceLayoutProjection : Type 0 where
  pub workspace_id : WorkspaceId
  pub viewport : Rect
  pub scroll_offset : ℤ
  pub content_width : ℕ
  pub focused_window_id : Option WindowId
  pub window_geometries : List WindowGeometryProjection

-- The loop over the columns of the strip, with the cursor `x`.
unfoldable pub place_columns :
    Map Column
    → Map WindowNode
    → Rect
    → LayoutSpacing
    → ℤ
    → List ColumnId
    → Result LayoutError (List WindowGeometryProjection)
place_columns columns windows viewport spacing x [] = ok []
place_columns columns windows viewport spacing x (id ∷ ids) = do
  column ← ok_or (get id columns) column_missing
  let column_width = resolve_width column viewport.width
  geometries ← place_column windows viewport spacing.window_gap x column_width column
  let after = wrap_add_i32 x (as_i32 column_width)
  let next = if is_empty ids then after else wrap_add_i32 after (capped_i32 spacing.column_gap)
  rest ← place_columns columns windows viewport spacing next ids
  ok (geometries ++ rest)

unfoldable pub floating_rect : Rect → ConfigProjection → WindowNode → Rect
floating_rect work_area config window =
    if is_fullscreen_layer window.layer || window.is_fullscreen
    then work_area
    else if ltb 0 window.last_known_rect.width && ltb 0 window.last_known_rect.height
    then window.last_known_rect
    else default_floating_rect work_area window.desired_size config

-- The loop over the floating layer.
unfoldable pub place_floating :
    Map WindowNode
    → Rect
    → ConfigProjection
    → List WindowId
    → Result LayoutError (List WindowGeometryProjection)
place_floating windows work_area config [] = ok []
place_floating windows work_area config (id ∷ ids) = do
  window ← ok_or (get id windows) (window_missing id)
  rest ← place_floating windows work_area config ids
  ok (
      record { window_id = id; rect = floating_rect work_area config window; layer = window.layer }
      ∷ rest)

unfoldable pub recompute_workspace :
    WmState → WorkspaceId → Result LayoutError WorkspaceLayoutProjection
recompute_workspace s workspace_id = do
  workspace ← ok_or (get workspace_id s.workspaces) (workspace_missing workspace_id)
  monitor ← ok_or (get workspace.monitor_id s.monitors) monitor_missing
  let viewport = padded_tiled_viewport monitor.work_area_rect s.config_projection
  let spacing = s.config_projection.layout_spacing
  let ids = workspace.strip.ordered_column_ids
  content_width ← content_width_from s.layout.columns viewport.width spacing.column_gap 0 0 ids
  let origin =
      strip_origin_x viewport.x viewport.width content_width ids s.focus.focused_column_id
        workspace.strip.scroll_offset
  tiles ← place_columns s.layout.columns s.windows viewport spacing origin ids
  floats ←
      place_floating s.windows monitor.work_area_rect s.config_projection
        workspace.floating_layer.ordered_window_ids
  ok (record {
    workspace_id = workspace_id;
    viewport = viewport;
    scroll_offset = workspace.strip.scroll_offset;
    content_width = content_width;
    focused_window_id =
        keep_if s.focus.focused_window_id
          (λ id. is_some_and (get id s.windows) (λ window. window.workspace_id == workspace_id));
    window_geometries = tiles ++ floats;
  })
