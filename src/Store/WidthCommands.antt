-- ===== src/Store/WidthCommands.antt =====
-- The width commands of crates/wm-core/src/state_store/width_resize.rs.
use flowtile_wm.Base.{ℕ, ◌==◌, ℤ, Option, none, some, find, map_some, ok_or, if◌then◌else◌, map_err}
use flowtile_wm.Domain.{
  WorkspaceId, WmState, Column, Rect, WidthResizeSession, fixed, restored, normal,
  is_maximized_column, edit_column, ColumnWidthResizePayload, ColumnWidthPointerPayload,
}
use flowtile_wm.Layout.{recompute_workspace}
use flowtile_wm.Store.Methods.{
  Action, layout_failed, invalid_event, pure, reads, asks, choose, modify, ◌>>=◌, ◌>>◌,
  require_column,
}
use flowtile_wm.Store.Widths.{workspace_tiled_viewport, resolve_column_width}
use flowtile_wm.Store.Resize.{
  active_tiled_width_target, column_target_width_bounds, ResizeMetrics,
  compute_width_resize_metrics, next_cycled_column_width,
}
use flowtile_wm.Store.Focus.{clamp_scroll_offset, reveal_column_in_workspace}

abbrev pub set_session : Option WidthResizeSession → WmState → WmState
set_session session s = record s { layout = record s.layout { width_resize_session = session } }

unfoldable pub handle_begin_column_width_resize :
    ColumnWidthResizePayload → Action (Option WorkspaceId)
handle_begin_column_width_resize payload = do
  target ← reads active_tiled_width_target
  projection ← reads (λ s. map_err layout_failed (recompute_workspace s target.workspace_id))
  geometry ← reads (λ s.
      ok_or (find (λ geometry. geometry.window_id == target.window_id) projection.window_geometries)
        (invalid_event "active tiled window is missing from layout projection"))
  viewport ← reads (λ s. workspace_tiled_viewport s target.workspace_id)
  range ← reads (λ s. column_target_width_bounds s target.column_id target.workspace_id)
  let metrics = compute_width_resize_metrics payload.edge geometry.rect viewport payload.pointer_x
  modify (
      set_session (
        some (record {
          workspace_id = target.workspace_id;
          column_id = target.column_id;
          window_id = target.window_id;
          anchor_edge = payload.edge;
          anchor_x = metrics.anchor_x;
          current_pointer_x = metrics.pointer_x;
          initial_column_rect = geometry.rect;
          initial_width = range.max_width;
          target_width = metrics.target_width;
          clamped_preview_rect = metrics.preview_rect;
        })))
  pure (some target.workspace_id)

abbrev session_metrics : WidthResizeSession → Rect → ℤ → ResizeMetrics
session_metrics session viewport pointer_x =
    compute_width_resize_metrics session.anchor_edge session.initial_column_rect viewport pointer_x

abbrev follow_pointer : ResizeMetrics → WidthResizeSession → WidthResizeSession
follow_pointer metrics session = record session {
  anchor_x = metrics.anchor_x;
  current_pointer_x = metrics.pointer_x;
  target_width = metrics.target_width;
  clamped_preview_rect = metrics.preview_rect;
}

unfoldable pub handle_update_column_width_preview :
    ColumnWidthPointerPayload → Action (Option WorkspaceId)
handle_update_column_width_preview payload = do
  current ← asks (λ s. s.layout.width_resize_session)
  choose current (pure none) λ session. do
    viewport ← reads (λ s. workspace_tiled_viewport s session.workspace_id)
    let metrics = session_metrics session viewport payload.pointer_x
    modify (λ s. set_session (map_some s.layout.width_resize_session (follow_pointer metrics)) s)
    pure (some session.workspace_id)

-- A column of a fixed width, neither maximized nor in the maximized mode.
unfoldable pub fix_width : ℕ → Column → Column
fix_width width column = record column {
  width_semantics = fixed width;
  maximized_state = restored;
  mode = if is_maximized_column column.mode then normal else column.mode;
}

unfoldable pub handle_commit_column_width : ColumnWidthPointerPayload → Action (Option WorkspaceId)
handle_commit_column_width payload = do
  current ← asks (λ s. s.layout.width_resize_session)
  choose current (pure none) λ session. do
    viewport ← reads (λ s. workspace_tiled_viewport s session.workspace_id)
    require_column session.column_id
    modify (
        edit_column session.column_id
          (fix_width (session_metrics session viewport payload.pointer_x).target_width))
    modify (set_session none)
    clamp_scroll_offset session.workspace_id
    reveal_column_in_workspace session.workspace_id session.column_id
    pure (some session.workspace_id)

unfoldable pub handle_cancel_column_width_resize : Action (Option WorkspaceId)
handle_cancel_column_width_resize = do
  workspace_id ←
      asks (λ s. map_some s.layout.width_resize_session (λ session. session.workspace_id))
  modify (set_session none)
  pure workspace_id

unfoldable pub handle_cycle_column_width : Action (Option WorkspaceId)
handle_cycle_column_width = do
  target ← reads active_tiled_width_target
  viewport ← reads (λ s. workspace_tiled_viewport s target.workspace_id)
  range ← reads (λ s. column_target_width_bounds s target.column_id target.workspace_id)
  column ← require_column target.column_id
  let next =
      next_cycled_column_width (resolve_column_width column viewport.width) range.min_width
        range.max_width
  modify (edit_column target.column_id (fix_width next))
  clamp_scroll_offset target.workspace_id
  reveal_column_in_workspace target.workspace_id target.column_id
  pure (some target.workspace_id)
