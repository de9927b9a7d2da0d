-- ===== src/Layout/Insets.antt =====
-- The rectangles that crates/layout-engine/src/lib.rs cuts out of a work area.
use flowtile_wm.Base.{ℕ, ◌-◌, min, max}
use flowtile_wm.Base.Words.{sat_add_i32, capped_i32}
use flowtile_wm.Domain.{Rect, Size, EdgeInsets, all_insets, ConfigProjection}

unfoldable pub inset_rect : Rect → EdgeInsets → Rect
inset_rect rect insets =
    let clamped_left = min insets.left (rect.width - 1) in
    let remaining_width = rect.width - clamped_left in
    let clamped_right = min insets.right (remaining_width - 1) in
    let clamped_top = min insets.top (rect.height - 1) in
    let remaining_height = rect.height - clamped_top in
    let clamped_bottom = min insets.bottom (remaining_height - 1) in
    record {
      x = sat_add_i32 rect.x (capped_i32 clamped_left);
      y = sat_add_i32 rect.y (capped_i32 clamped_top);
      width = max (rect.width - clamped_left - clamped_right) 1;
      height = max (rect.height - clamped_top - clamped_bottom) 1;
    }

unfoldable pub inset_uniform_rect : Rect → ℕ → Rect
inset_uniform_rect rect margin = inset_rect rect (all_insets margin)

unfoldable pub padded_tiled_viewport : Rect → ConfigProjection → Rect
padded_tiled_viewport work_area config = inset_rect work_area config.layout_spacing.outer_padding

unfoldable pub default_floating_rect : Rect → Size → ConfigProjection → Rect
default_floating_rect work_area desired_size config =
    let available = inset_uniform_rect work_area config.layout_spacing.floating_margin in
    record {
      x = available.x;
      y = available.y;
      width = min (max desired_size.width 1) available.width;
      height = min (max desired_size.height 1) available.height;
    }
