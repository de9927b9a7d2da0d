-- ===== src/Layout/Inside.antt =====
-- The bounds of the rectangles that crates/layout-engine/src/lib.rs cuts out of a work area.
use flowtile_wm.Base.{ℕ, ◌-◌, ◌≤◌, min, max, ℤ, pos, ◌+ℤ◌, ◌≤ℤ◌, +ℤ_exact, arith, ◌≡◌}
use flowtile_wm.Base.Words.{i32_max, IsI32, sat_add_i32, capped_i32, saturate_i32-eq}
use flowtile_wm.Domain.{Rect, EdgeInsets}
use flowtile_wm.Layout.Insets.{inset_rect}

-- A rectangle that is not empty and whose right and lower ends are within an `i32`.
pub record IsOnScreen (r : Rect) : Type 0 where
  pub width : 1 ≤ r.width
  pub height : 1 ≤ r.height
  pub width_fits : r.width ≤ i32_max
  pub height_fits : r.height ≤ i32_max
  pub left : IsI32 r.x
  pub top : IsI32 r.y
  pub right : r.x +ℤ pos r.width ≤ℤ pos i32_max
  pub bottom : r.y +ℤ pos r.height ≤ℤ pos i32_max

-- One rectangle lies within another.
pub record IsWithin (r outer : Rect) : Type 0 where
  pub left : outer.x ≤ℤ r.x
  pub top : outer.y ≤ℤ r.y
  pub right : r.x +ℤ pos r.width ≤ℤ outer.x +ℤ pos outer.width
  pub bottom : r.y +ℤ pos r.height ≤ℤ outer.y +ℤ pos outer.height

-- One side of a rectangle after two insets: where it starts and how far it reaches.
module _ (x : ℤ) (width before after : ℕ) where
  abbrev clamped_before : ℕ
  clamped_before = min before (width - 1)

  abbrev inset_extent : ℕ
  inset_extent = max (width - clamped_before - min after (width - clamped_before - 1)) 1

  inset_start-eq :
      IsI32 x
      → 1 ≤ width
      → x +ℤ pos width ≤ℤ pos i32_max
      → sat_add_i32 x (capped_i32 clamped_before) ≡ x +ℤ pos (min clamped_before i32_max)
  unfolding sat_add_i32
  inset_start-eq h w k =
      saturate_i32-eq (x +ℤ pos (min clamped_before i32_max))
        (omega (arith, +ℤ_exact x (pos width), +ℤ_exact x (pos (min clamped_before i32_max))))

  side_bounds :
      IsI32 x
      → 1 ≤ width
      → x +ℤ pos width ≤ℤ pos i32_max
      → width ≤ i32_max
      → (x ≤ℤ sat_add_i32 x (capped_i32 clamped_before))
        × (sat_add_i32 x (capped_i32 clamped_before) +ℤ pos inset_extent ≤ℤ x +ℤ pos width)
  side_bounds h w k i =
      let start = x +ℤ pos (min clamped_before i32_max) in
      rw (inset_start-eq h w k) (
        omega (
          arith,
          +ℤ_exact x (pos width),
          +ℤ_exact x (pos (min clamped_before i32_max)),
          +ℤ_exact start (pos inset_extent),
        ),
        omega (
          arith,
          +ℤ_exact x (pos width),
          +ℤ_exact x (pos (min clamped_before i32_max)),
          +ℤ_exact start (pos inset_extent),
        ),
      )

-- Of a work area that is not empty and whose ends and extents are within an `i32`, any four
-- insets, however large, leave a rectangle that is not empty and lies within the work area.
pub inset_rect-IsWithin :
    (rect : Rect) (insets : EdgeInsets)
    → IsOnScreen rect
    → IsWithin (inset_rect rect insets) rect
      × (1 ≤ (inset_rect rect insets).width)
      × (1 ≤ (inset_rect rect insets).height)
unfolding inset_rect
inset_rect-IsWithin rect insets h =
    let (l, r) =
      side_bounds rect.x rect.width insets.left insets.right h.left h.width h.right h.width_fits in
    let (t, b) =
      side_bounds rect.y rect.height insets.top insets.bottom h.top h.height h.bottom
        h.height_fits in
    (record { left = l; top = t; right = r; bottom = b }, omega arith, omega arith)
