-- ===== src/Layout/Complete.antt =====
-- The errors of `recompute_workspace` of crates/layout-engine/src/lib.rs.
use flowtile_wm.Base.{
  ℕ, suc, ◌-◌, ◌≡◌, refl, ℤ, Option, some, none, is_some_and, keep_if, List, [], ◌∷◌, ◌++◌,
  if◌then◌else◌, ◌==◌, is_empty, first, or_else, Result, ok, Bool-cases, inl, inr, All,
}
use flowtile_wm.Base.Map.{Map, get}
use flowtile_wm.Base.Words.{wrap_add_i32, as_i32, capped_i32}
use flowtile_wm.Domain.{
  WorkspaceId, ColumnId, WindowId, Rect, Column, WindowNode, Workspace, Monitor, LayoutSpacing,
  ConfigProjection, WmState, is_tabbed,
}
use flowtile_wm.Layout.Columns.{
  LayoutError, strip_origin_x, WindowGeometryProjection, ColumnFrame, resolve_width, window_height,
  place_windows, place_tab, place_column, content_width_from, column_frame,
}
use flowtile_wm.Layout.Workspace.{place_columns, place_floating, floating_rect, recompute_workspace}
use flowtile_wm.Layout.Insets.{padded_tiled_viewport}
use flowtile_wm.Layout.Shares.{placed, below, place_step}

-- A computation that gives a value.
abbrev pub Succeeds : {A : Type 0} → Result LayoutError A → Type 0
Succeeds {A} r = (a : A) × (r ≡ ok a)

-- A window that a map has, and an optional one.
abbrev pub IsThere : Map WindowNode → WindowId → Type 0
IsThere windows id = (window : WindowNode) × (get id windows ≡ some window)

abbrev pub IsThereOrNone : Map WindowNode → Option WindowId → Type 0
IsThereOrNone windows none = Unit
IsThereOrNone windows (some id) = IsThere windows id

-- A column that the state has, whose windows are all there.
pub record IsResolved (columns : Map Column) (windows : Map WindowNode) (id : ColumnId)
    : Type 0 where
  pub column : Column
  pub found : get id columns ≡ some column
  pub members : All (IsThere windows) column.ordered_window_ids
  pub tab : IsThereOrNone windows column.tab_selection

place_windows-Succeeds :
    (windows : Map WindowNode) (frame : ColumnFrame) (y : ℤ) (remaining : ℕ) (ids : List WindowId)
    → All (IsThere windows) ids
    → Succeeds (place_windows windows frame y remaining ids)
unfolding place_windows
place_windows-Succeeds windows frame y remaining [] h = ([], refl)
place_windows-Succeeds windows frame y remaining (id ∷ ids) ((window, g), h) =
    let height = window_height frame window (is_empty ids) remaining in
    let (gs, e) =
      place_windows-Succeeds windows frame (below frame y height ids) (remaining - height) ids h in
    (
      placed frame y height id window ∷ gs,
      place_step windows frame y remaining height id window ids gs g refl e,
    )

place_tab-Succeeds :
    (windows : Map WindowNode) (viewport : Rect) (x : ℤ) (width : ℕ) (o : Option WindowId)
    → IsThereOrNone windows o
    → Succeeds (place_tab windows viewport x width o)
unfolding place_tab
place_tab-Succeeds windows viewport x width none h = ([], refl)
place_tab-Succeeds windows viewport x width (some id) (window, g) = (
  record {
    window_id = id;
    rect = record { x = x; y = viewport.y; width = width; height = viewport.height };
    layer = window.layer;
  }
      ∷ [],
  rw g refl,
)

shown_tab :
    (windows : Map WindowNode) (o : Option WindowId) (ids : List WindowId)
    → IsThereOrNone windows o
    → All (IsThere windows) ids
    → IsThereOrNone windows (or_else o (first ids))
shown_tab windows (some id) ids h k = h
shown_tab windows none [] h k = tt
shown_tab windows none (id ∷ ids) h (k, r) = k

place_column-Succeeds :
    (windows : Map WindowNode) (viewport : Rect) (gap : ℕ) (x : ℤ) (width : ℕ) (column : Column)
    → All (IsThere windows) column.ordered_window_ids
    → IsThereOrNone windows column.tab_selection
    → Succeeds (place_column windows viewport gap x width column)
unfolding place_column
place_column-Succeeds windows viewport gap x width column h t =
    elim (Bool-cases (is_tabbed column.mode)) [
      | inl e ↦
          rw (e, place_column)
            (place_tab-Succeeds windows viewport x width _
              (shown_tab windows column.tab_selection column.ordered_window_ids t h))
      | inr e ↦
          rw (e, place_column)
            (place_windows-Succeeds windows
              (column_frame windows viewport gap x width column.ordered_window_ids) viewport.y _
              column.ordered_window_ids h)
    ]

abbrev next_x : LayoutSpacing → ℤ → ℕ → List ColumnId → ℤ
next_x spacing x width ids =
    let after = wrap_add_i32 x (as_i32 width) in
    if is_empty ids then after else wrap_add_i32 after (capped_i32 spacing.column_gap)

place_columns_step :
    (columns : Map Column) (windows : Map WindowNode) (viewport : Rect) (spacing : LayoutSpacing)
    (x : ℤ) (id : ColumnId) (ids : List ColumnId) (column : Column)
    (gs rest : List WindowGeometryProjection)
    → get id columns ≡ some column
    → place_column windows viewport spacing.window_gap x
        (resolve_width column viewport.width)
        column
      ≡ ok gs
    → place_columns columns windows viewport spacing
        (next_x spacing x (resolve_width column viewport.width) ids)
        ids
      ≡ ok rest
    → place_columns columns windows viewport spacing x (id ∷ ids) ≡ ok (gs ++ rest)
unfolding place_columns
place_columns_step columns windows viewport spacing x id ids column gs rest g e k =
    rw g (rw e (rw k refl))

place_columns-Succeeds :
    (columns : Map Column) (windows : Map WindowNode) (viewport : Rect) (spacing : LayoutSpacing)
    (x : ℤ) (ids : List ColumnId)
    → All (IsResolved columns windows) ids
    → Succeeds (place_columns columns windows viewport spacing x ids)
unfolding place_columns
place_columns-Succeeds columns windows viewport spacing x [] h = ([], refl)
place_columns-Succeeds columns windows viewport spacing x (id ∷ ids) (r, h) =
    let width = resolve_width r.column viewport.width in
    let (gs, e) =
      place_column-Succeeds windows viewport spacing.window_gap x width r.column r.members r.tab in
    let (rest, k) =
      place_columns-Succeeds columns windows viewport spacing (next_x spacing x width ids) ids h in
    (
      gs ++ rest,
      place_columns_step columns windows viewport spacing x id ids r.column gs rest r.found e k,
    )

content_width_from-Succeeds :
    (columns : Map Column) (windows : Map WindowNode) (viewport_width gap index total : ℕ)
    (ids : List ColumnId)
    → All (IsResolved columns windows) ids
    → Succeeds (content_width_from columns viewport_width gap index total ids)
unfolding content_width_from
content_width_from-Succeeds columns windows v gap i t [] h = (t, refl)
content_width_from-Succeeds columns windows v gap i t (id ∷ ids) (r, h) =
    rw r.found (content_width_from-Succeeds columns windows v gap (suc i) _ ids h)

place_floating-Succeeds :
    (windows : Map WindowNode) (work_area : Rect) (config : ConfigProjection) (ids : List WindowId)
    → All (IsThere windows) ids
    → Succeeds (place_floating windows work_area config ids)
unfolding place_floating
place_floating-Succeeds windows work_area config [] h = ([], refl)
place_floating-Succeeds windows work_area config (id ∷ ids) ((window, g), h) =
    let (rest, e) = place_floating-Succeeds windows work_area config ids h in
    (
      record { window_id = id; rect = floating_rect work_area config window; layer = window.layer }
          ∷ rest,
      rw g (rw e refl),
    )

-- Where the workspace and its monitor are in the state, and so are all columns of its strip with
-- their windows and all windows of its floating layer, the layout is computed without an error.
pub recompute_workspace-Succeeds :
    (s : WmState) (id : WorkspaceId) (workspace : Workspace) (monitor : Monitor)
    → get id s.workspaces ≡ some workspace
    → get workspace.monitor_id s.monitors ≡ some monitor
    → All (IsResolved s.layout.columns s.windows) workspace.strip.ordered_column_ids
    → All (IsThere s.windows) workspace.floating_layer.ordered_window_ids
    → Succeeds (recompute_workspace s id)
unfolding recompute_workspace
recompute_workspace-Succeeds s id workspace monitor hw hm hc hf =
    let viewport = padded_tiled_viewport monitor.work_area_rect s.config_projection in
    let spacing = s.config_projection.layout_spacing in
    let ids = workspace.strip.ordered_column_ids in
    let (content_width, e) =
      content_width_from-Succeeds s.layout.columns s.windows viewport.width spacing.column_gap 0 0
        ids hc in
    let origin =
      strip_origin_x viewport.x viewport.width content_width ids s.focus.focused_column_id
        workspace.strip.scroll_offset in
    let (tiles, k) =
      place_columns-Succeeds s.layout.columns s.windows viewport spacing origin ids hc in
    let (floats, l) =
      place_floating-Succeeds s.windows monitor.work_area_rect s.config_projection
        workspace.floating_layer.ordered_window_ids hf in
    (
      record {
        workspace_id = id;
        viewport = viewport;
        scroll_offset = workspace.strip.scroll_offset;
        content_width = content_width;
        focused_window_id =
            keep_if s.focus.focused_window_id (λ focused.
              is_some_and (get focused s.windows) (λ window. window.workspace_id == id));
        window_geometries = tiles ++ floats;
      },
      rw hw (rw hm (rw e (rw k (rw l refl)))),
    )
