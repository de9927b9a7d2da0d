-- ===== src/Store/Tabs.antt =====
-- What the layout engine (crates/layout-engine/src/lib.rs) shows of a column after the reducer has
-- selected one of its windows or switched it between tabs and rows.
use flowtile_wm.Base.{
  ℕ, ◌-◌, ◌≡◌, refl, ap, ℤ, true, false, Option, some, List, [], ◌∷◌, if◌then◌else◌, is_empty,
  contains, All, ok, Bool-cases, inl, inr,
}
use flowtile_wm.Base.Map.{Map}
use flowtile_wm.Domain.{WindowId, Rect, Column, ColumnMode, normal, tabbed, WindowNode, is_tabbed}
use flowtile_wm.Layout.{
  WindowGeometryProjection, ColumnFrame, window_height, place_windows, place_tab, place_column,
  column_frame,
}
use flowtile_wm.Layout.Shares.{placed_ids, placed, below, place_step}
use flowtile_wm.Layout.Complete.{IsThere}
use flowtile_wm.Store.Modes.{toggle_tabbed}
use flowtile_wm.Store.Focus.{select_in_column}
use flowtile_wm.Store.Sorting.{All-contains}

module _ (windows : Map WindowNode) (viewport : Rect) (window_gap : ℕ) (x : ℤ) (width : ℕ) where
  -- The layout places exactly the given windows of a column, in their order.
  abbrev pub IsShowing : Column → List WindowId → Type 0
  IsShowing column ids =
      (gs : List WindowGeometryProjection) × (place_column windows viewport window_gap x width
          column
        ≡ ok gs)
      × (placed_ids gs ≡ ids)

  place_windows-shown :
      (frame : ColumnFrame) (y : ℤ) (remaining : ℕ) (ids : List WindowId)
      → All (IsThere windows) ids
      → (gs : List WindowGeometryProjection) × (place_windows windows frame y remaining ids ≡ ok gs)
        × (placed_ids gs ≡ ids)
  unfolding place_windows
  place_windows-shown frame y remaining [] h = ([], refl, refl)
  place_windows-shown frame y remaining (id ∷ ids) ((window, g), h) =
      let height = window_height frame window (is_empty ids) remaining in
      let (gs, e, same) =
        place_windows-shown frame (below frame y height ids) (remaining - height) ids h in
      (
        placed frame y height id window ∷ gs,
        place_step windows frame y remaining height id window ids gs g refl e,
        ap (λ l. id ∷ l) same,
      )

  tab-IsShowing :
      (id : WindowId) (column : Column)
      → is_tabbed column.mode ≡ true
      → column.tab_selection ≡ some id
      → IsThere windows id
      → IsShowing column (id ∷ [])
  unfolding place_column place_tab
  tab-IsShowing id column t s (window, g) = (
    record {
      window_id = id;
      rect = record { x = x; y = viewport.y; width = width; height = viewport.height };
      layer = window.layer;
    }
        ∷ [],
    rw (t, s, g) refl,
    refl,
  )

  rows-IsShowing :
      (column : Column)
      → is_tabbed column.mode ≡ false
      → All (IsThere windows) column.ordered_window_ids
      → IsShowing column column.ordered_window_ids
  unfolding place_column
  rows-IsShowing column t h =
      let (gs, e, same) =
        place_windows-shown
          (column_frame windows viewport window_gap x width column.ordered_window_ids) viewport.y
          (column_frame windows viewport window_gap x width column.ordered_window_ids).tiled_height
          column.ordered_window_ids h in
      (gs, rw (t, place_column) e, same)

  -- For a window of a column all of whose windows exist: selecting it makes it the active window, and
  -- the column then shows it alone if it is tabbed, and all windows in their order if it is not.
  -- Switching between tabs and rows with it makes it the active window too, and then the column shows it
  -- alone if it was not tabbed, and all windows in their order if it was.
  pub column_edits-IsShowing :
      (id : WindowId) (column : Column)
      → All (IsThere windows) column.ordered_window_ids
      → contains id column.ordered_window_ids ≡ true
      → ((select_in_column id column).active_window_id ≡ some id)
        × IsShowing
            (select_in_column id column)
            (if is_tabbed column.mode then id ∷ [] else column.ordered_window_ids)
        × ((toggle_tabbed id column).active_window_id ≡ some id)
        × IsShowing
            (toggle_tabbed id column)
            (if is_tabbed column.mode then column.ordered_window_ids else id ∷ [])
  unfolding toggle_tabbed
  column_edits-IsShowing id column h c =
      let there = All-contains (IsThere windows) id column.ordered_window_ids c h in
      let alone = λ (mode : ColumnMode). λ (t : is_tabbed mode ≡ true).
        tab-IsShowing id
          (record column { mode = mode; tab_selection = some id; active_window_id = some id }) t
          refl there in
      let all = λ (mode : ColumnMode). λ (o : Option WindowId). λ (t : is_tabbed mode ≡ false).
        rows-IsShowing
          (record column { mode = mode; tab_selection = o; active_window_id = some id }) t h in
      elim (Bool-cases (is_tabbed column.mode)) [
        | inl t ↦ rw t (refl, alone column.mode t, refl, all normal _ refl)
        | inr t ↦ rw t (refl, all column.mode column.tab_selection t, refl, alone tabbed refl)
      ]
