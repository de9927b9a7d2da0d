-- ===== src/Store/Resize.antt =====
-- The arithmetic of crates/wm-core/src/state_store/width_resize.rs.
use flowtile_wm.Base.{
  ℕ, ◌/◌, min, max, ℤ, not, ◌&&◌, ◌||◌, List, [], ◌∷◌, map, if◌then◌else◌, ltb, leb, ◌==◌, find,
  unwrap_or, get_or, ok, err, ok_or,
}
use flowtile_wm.Base.Words.{
  as_i32, as_u32, sat_add_i32, sat_sub_i32, sat_mul_u32, min_i32, max_i32, clamp_i32, clamp_u32,
}
use flowtile_wm.Domain.{
  WorkspaceId, ColumnId, WindowId, WmState, Rect, ResizeEdge, left, right, is_tiled_layer,
}
use flowtile_wm.Store.Methods.{Outcome, invalid_event, window_or_err, column_or_err}
use flowtile_wm.Store.Reading.{◌>>=◌}
use flowtile_wm.Store.Queries.{focused_window_in_workspace}
use flowtile_wm.Store.Monitors.{active_workspace_id_for_commands}
use flowtile_wm.Store.Widths.{workspace_tiled_viewport}

pub record WidthTarget : Type 0 where
  pub workspace_id : WorkspaceId
  pub window_id : WindowId
  pub column_id : ColumnId

unfoldable pub active_tiled_width_target : WmState → Outcome WidthTarget
active_tiled_width_target s = do
  workspace_id ← active_workspace_id_for_commands s
  window_id ←
      ok_or (focused_window_in_workspace s workspace_id)
        (invalid_event "width command requires an active tiled window")
  window ← window_or_err s window_id
  column_id ← ok_or window.column_id (invalid_event "width command requires an active tiled column")
  if is_tiled_layer window.layer && not (window.is_floating || window.is_fullscreen)
      then ok (record { workspace_id = workspace_id; window_id = window_id; column_id = column_id })
      else err (invalid_event "width command requires an active managed tiled window")

-- The widths that a column may be resized to.
pub record WidthRange : Type 0 where
  pub min_width : ℕ
  pub max_width : ℕ

abbrev pub width_range : Rect → WidthRange
width_range viewport =
    let max_width = max viewport.width 1 in
    record { min_width = max (max_width / 6) 1; max_width = max_width }

unfoldable pub column_target_width_bounds : WmState → ColumnId → WorkspaceId → Outcome WidthRange
column_target_width_bounds s column_id workspace_id = do
  viewport ← workspace_tiled_viewport s workspace_id
  column ← column_or_err s column_id
  ok (width_range viewport)

pub record ResizeMetrics : Type 0 where
  pub target_width : ℕ
  pub preview_rect : Rect
  pub anchor_x : ℤ
  pub pointer_x : ℤ

-- How far the pointer may go, and the edge that stays.
pub record PointerRange : Type 0 where
  pub min_pointer_x : ℤ
  pub max_pointer_x : ℤ
  pub anchor_x : ℤ

unfoldable pub pointer_range : ResizeEdge → Rect → WidthRange → PointerRange
pointer_range right column_rect range = record {
  min_pointer_x = sat_add_i32 column_rect.x (as_i32 range.min_width);
  max_pointer_x = sat_add_i32 column_rect.x (as_i32 range.max_width);
  anchor_x = sat_add_i32 column_rect.x (as_i32 column_rect.width);
}
pointer_range left column_rect range =
    let initial_right = sat_add_i32 column_rect.x (as_i32 column_rect.width) in
    record {
      min_pointer_x = sat_sub_i32 initial_right (as_i32 range.max_width);
      max_pointer_x = sat_sub_i32 initial_right (as_i32 range.min_width);
      anchor_x = column_rect.x;
    }

-- The distance from the edge that stays in place to the pointer.
unfoldable pub pulled_width : ResizeEdge → Rect → ℤ → ℕ
pulled_width right column_rect pointer_x = as_u32 (sat_sub_i32 pointer_x column_rect.x)
pulled_width left column_rect pointer_x =
    as_u32 (sat_sub_i32 (sat_add_i32 column_rect.x (as_i32 column_rect.width)) pointer_x)

unfoldable pub compute_width_resize_metrics : ResizeEdge → Rect → Rect → ℤ → ResizeMetrics
compute_width_resize_metrics edge initial_column_rect viewport pointer_x =
    let range = width_range viewport in
    let pointers = pointer_range edge initial_column_rect range in
    let clamped_pointer_x =
      clamp_i32 (clamp_i32 pointer_x pointers.min_pointer_x pointers.max_pointer_x) viewport.x
        (sat_add_i32 viewport.x (as_i32 viewport.width)) in
    let preview_left = min_i32 pointers.anchor_x clamped_pointer_x in
    let preview_right = max_i32 pointers.anchor_x clamped_pointer_x in
    record {
      target_width =
          clamp_u32 (pulled_width edge initial_column_rect clamped_pointer_x) range.min_width
            range.max_width;
      preview_rect = record {
        x = preview_left;
        y = viewport.y;
        width = max (as_u32 (sat_sub_i32 preview_right preview_left)) 1;
        height = max (min initial_column_rect.height viewport.height) 1;
      };
      anchor_x = pointers.anchor_x;
      pointer_x = clamped_pointer_x;
    }

-- `sort_unstable` on numbers.
unfoldable pub insert_sorted : ℕ → List ℕ → List ℕ
insert_sorted n [] = n ∷ []
insert_sorted n (m ∷ ms) =
    let later = m ∷ insert_sorted n ms in if leb n m then n ∷ m ∷ ms else later

unfoldable pub sort : List ℕ → List ℕ
sort [] = []
sort (n ∷ ns) = insert_sorted n (sort ns)

-- `dedup`: of equal neighbours one stays.
unfoldable pub dedup : List ℕ → List ℕ
dedup [] = []
dedup (n ∷ []) = n ∷ []
dedup (n ∷ m ∷ ms) = let rest = dedup (m ∷ ms) in if n == m then rest else n ∷ rest

abbrev pub cycle_steps : ℕ → ℕ → List ℕ
cycle_steps min_width max_width =
    map (λ width. max (clamp_u32 width min_width max_width) 1)
      (max_width / 3 ∷ max_width / 2 ∷ sat_mul_u32 max_width 2 / 3 ∷ max_width ∷ [])

-- The next larger step, or the smallest one after the largest.
unfoldable pub next_cycled_column_width : ℕ → ℕ → ℕ → ℕ
next_cycled_column_width current_width min_width max_width =
    let steps = dedup (sort (cycle_steps min_width max_width)) in
    unwrap_or (find (λ width. ltb current_width width) steps) (get_or steps 0 0)
