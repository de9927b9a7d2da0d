-- ===== src/Layout/Columns.antt =====
-- The passages of `recompute_workspace` that place one column, and the helpers of
-- crates/layout-engine/src/lib.rs that they call.
use flowtile_wm.Base.{
  ℕ, suc, ◌+◌, ◌-◌, ◌*◌, ◌/◌, max, ℤ, Bool, ◌||◌, Option, none, some, List, [], ◌∷◌, if◌then◌else◌,
  ltb, leb, ◌==◌, or_else, eq_option, first, last, length, is_empty, Result, ok, ok_or, and_then_ok,
}
use flowtile_wm.Base.Map.{get, Map}
use flowtile_wm.Base.Words.{
  u32_max, wrap_u32, sat_add_u32, sat_add_i32, sat_sub_i32, wrap_add_i32, as_i32, capped_i32,
  half_i32,
}
use flowtile_wm.Domain.{
  WorkspaceId, ColumnId, WindowId, Rect, Column, WindowNode, WindowLayer, is_tabbed,
  is_maximized_column, is_maximized, resolve,
}

pub data LayoutError : Type 0 where
  workspace_missing : WorkspaceId → LayoutError
  monitor_missing column_missing : LayoutError
  window_missing : WindowId → LayoutError

pub record WindowGeometryProjection : Type 0 where
  pub window_id : WindowId
  pub rect : Rect
  pub layer : WindowLayer

-- `?` on a result with a layout error.
infixl 5 ◌>>=◌
abbrev pub ◌>>=◌ :
    {A B : Type 0} → Result LayoutError A → (A → Result LayoutError B) → Result LayoutError B
m >>= f = and_then_ok m f

unfoldable pub resolve_width : Column → ℕ → ℕ
resolve_width column viewport_width =
    if is_maximized column.maximized_state || is_maximized_column column.mode
    then max viewport_width 1
    else resolve column.width_semantics viewport_width

unfoldable pub strip_origin_x : ℤ → ℕ → ℕ → List ColumnId → Option ColumnId → ℤ → ℤ
strip_origin_x viewport_x viewport_width content_width ids focused_column_id scroll_offset =
    let slack = capped_i32 (viewport_width - content_width) in
    if leb viewport_width content_width || is_empty ids
    then sat_sub_i32 viewport_x scroll_offset
    else if length ids == 1
    then sat_add_i32 viewport_x (half_i32 slack)
    else if eq_option focused_column_id (last ids)
    then sat_add_i32 viewport_x slack
    else sat_sub_i32 viewport_x scroll_offset

-- A count or a product that does not fit a `u32` gives the largest one.
unfoldable pub gap_total : ℕ → ℕ → ℕ
gap_total item_count gap =
    let count = item_count - 1 in
    if ltb u32_max count
    then u32_max
    else if ltb u32_max (count * gap)
    then u32_max
    else count * gap

-- The loop over the columns that adds up the content width, from column `index` on.
unfoldable pub content_width_from :
    Map Column → ℕ → ℕ → ℕ → ℕ → List ColumnId → Result LayoutError ℕ
content_width_from columns viewport_width column_gap index total [] = ok total
content_width_from columns viewport_width column_gap index total (id ∷ ids) = do
  column ← ok_or (get id columns) column_missing
  content_width_from columns viewport_width column_gap (suc index)
      (sat_add_u32 (sat_add_u32 total (resolve_width column viewport_width))
        (if index == 0 then 0 else column_gap))
      ids

-- `window.desired_size.height.max(1)`.
abbrev pub desired_height : WindowNode → ℕ
desired_height window = max window.desired_size.height 1

-- The sum over the windows that exist, in wrapping `u32` arithmetic.
unfoldable pub sum_desired : Map WindowNode → List WindowId → ℕ
sum_desired windows [] = 0
sum_desired windows (id ∷ ids) =
    let rest = sum_desired windows ids in
    elim (get id windows) [ none ↦ rest | some window ↦ wrap_u32 (desired_height window + rest) ]

-- What the windows of one column have in common.
pub record ColumnFrame : Type 0 where
  pub x : ℤ
  pub column_width : ℕ
  pub tiled_height : ℕ
  pub desired_height_total : ℕ
  pub window_gap : ℕ

-- The product fits the `u64` that it is computed in; the quotient is cast to `u32`.
unfoldable pub window_height : ColumnFrame → WindowNode → Bool → ℕ → ℕ
window_height frame window is_last remaining =
    max
      (if is_last
        then max remaining 1
        else wrap_u32 (frame.tiled_height * desired_height window / frame.desired_height_total))
      1

-- The loop over the windows of a column. The last one takes the height that remains.
unfoldable pub place_windows :
    Map WindowNode
    → ColumnFrame
    → ℤ
    → ℕ
    → List WindowId
    → Result LayoutError (List WindowGeometryProjection)
place_windows windows frame y remaining [] = ok []
place_windows windows frame y remaining (id ∷ ids) = do
  window ← ok_or (get id windows) (window_missing id)
  let height = window_height frame window (is_empty ids) remaining
  let below = wrap_add_i32 y (as_i32 height)
  let next = if is_empty ids then below else wrap_add_i32 below (capped_i32 frame.window_gap)
  rest ← place_windows windows frame next (remaining - height) ids
  ok (
      record {
        window_id = id;
        rect = record { x = frame.x; y = y; width = frame.column_width; height = height };
        layer = window.layer;
      }
      ∷ rest)

-- A tabbed column shows its selected window, or else its first one, over the whole height.
unfoldable pub place_tab :
    Map WindowNode
    → Rect
    → ℤ
    → ℕ
    → Option WindowId
    → Result LayoutError (List WindowGeometryProjection)
place_tab windows viewport x column_width none = ok []
place_tab windows viewport x column_width (some id) = do
  window ← ok_or (get id windows) (window_missing id)
  ok (
      record {
        window_id = id;
        rect = record { x = x; y = viewport.y; width = column_width; height = viewport.height };
        layer = window.layer;
      }
      ∷ [])

-- The frame of a column that is not tabbed.
abbrev pub column_frame : Map WindowNode → Rect → ℕ → ℤ → ℕ → List WindowId → ColumnFrame
column_frame windows viewport window_gap x column_width ids = record {
  x = x;
  column_width = column_width;
  tiled_height = max (viewport.height - gap_total (length ids) window_gap) 1;
  desired_height_total = max (sum_desired windows ids) 1;
  window_gap = window_gap;
}

unfoldable pub place_column :
    Map WindowNode → Rect → ℕ → ℤ → ℕ → Column → Result LayoutError (List WindowGeometryProjection)
place_column windows viewport window_gap x column_width column =
    if is_tabbed column.mode
    then place_tab windows viewport x column_width
        (or_else column.tab_selection (first column.ordered_window_ids))
    else let frame =
        column_frame windows viewport window_gap x column_width column.ordered_window_ids in
      place_windows windows frame viewport.y frame.tiled_height column.ordered_window_ids
