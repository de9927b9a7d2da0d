-- ===== src/Store/ResizeRange.antt =====
-- The range of the widths in crates/wm-core/src/state_store/width_resize.rs.
use flowtile_wm.Base.{◌≤◌, max, ℤ, ◌≤ℤ◌, arith}
use flowtile_wm.Base.Words.{clamp_u32_bounds, clamp_i32_bounds, sat_add_i32, as_i32}
use flowtile_wm.Domain.{Rect, ResizeEdge}
use flowtile_wm.Store.Resize.{width_range, compute_width_resize_metrics}

width_range-ordered :
    (viewport : Rect)
    → (1 ≤ (width_range viewport).min_width)
      × ((width_range viewport).min_width ≤ (width_range viewport).max_width)
width_range-ordered viewport = ground arith

-- Whatever the edge, the column and the pointer, the width that a resize aims at lies between the
-- least width of a column and the width of the tiled area, the pointer it remembers lies on the
-- tiled area (of an area whose right end is not left of its left end), and the preview is not empty
-- and no higher than the tiled area.
pub compute_width_resize_metrics-bounds :
    (edge : ResizeEdge) (column viewport : Rect) (pointer_x : ℤ)
    → viewport.x ≤ℤ sat_add_i32 viewport.x (as_i32 viewport.width)
    → ((width_range viewport).min_width
        ≤ (compute_width_resize_metrics edge column viewport pointer_x).target_width)
      × ((compute_width_resize_metrics edge column viewport pointer_x).target_width
          ≤ (width_range viewport).max_width)
      × (viewport.x ≤ℤ (compute_width_resize_metrics edge column viewport pointer_x).pointer_x)
      × ((compute_width_resize_metrics edge column viewport pointer_x).pointer_x
          ≤ℤ sat_add_i32 viewport.x (as_i32 viewport.width))
      × (1 ≤ (compute_width_resize_metrics edge column viewport pointer_x).preview_rect.width)
      × ((compute_width_resize_metrics edge column viewport pointer_x).preview_rect.height
          ≤ max viewport.height 1)
unfolding compute_width_resize_metrics
compute_width_resize_metrics-bounds edge column viewport pointer_x h =
    let (a, b) = clamp_u32_bounds _ _ _ (width_range-ordered viewport).1 in
    let (c, d) = clamp_i32_bounds _ _ _ h in (a, b, c, d, omega arith, omega arith)
