-- ===== src/Layout/Shares.antt =====
-- The heights that `recompute_workspace` of crates/layout-engine/src/lib.rs gives the windows of a
-- column.
use flowtile_wm.Base.{
  ℕ, zero, suc, ◌+◌, ◌-◌, ◌*◌, ◌/◌, ◌≤◌, ◌<◌, ◌≡◌, refl, sym, ap, ℤ, true, false, some, List, [],
  ◌∷◌, if◌then◌else◌, is_empty, ok, arith,
}
use flowtile_wm.Base.Map.{Map, get}
use flowtile_wm.Base.Words.{wrap_u32, u32_max, wrap_add_i32, as_i32, capped_i32}
use flowtile_wm.Domain.{WindowId, WindowNode}
use flowtile_wm.Layout.Columns.{
  WindowGeometryProjection, ColumnFrame, desired_height, window_height, place_windows,
}
use native.Mathlib.Nat.{
  div-mul-le_self, le-div_iff_mul-le, mod-eq_of_lt, div-le_of_le-mul, mul-le-mul_left,
  le_of_mul-le-mul_right, mul_comm, mul-sub,
}

-- The windows of a placement, and the sum of its heights.
abbrev pub placed_ids : List WindowGeometryProjection → List WindowId
placed_ids [] = []
placed_ids (g ∷ gs) = g.window_id ∷ placed_ids gs

abbrev pub total_height : List WindowGeometryProjection → ℕ
total_height [] = 0
total_height (g ∷ gs) = g.rect.height + total_height gs

-- Each window of a list exists and its share of the height is at least one pixel; `wanted` is the
-- sum of the heights they ask for.
pub data IsShared (windows : Map WindowNode) (frame : ColumnFrame)
    : List WindowId → ℕ → Type 0 where
  shared_nil : IsShared windows frame [] 0
  shared_cons :
      (id : WindowId) (window : WindowNode) (ids : List WindowId) (wanted : ℕ)
      → get id windows ≡ some window
      → frame.desired_height_total ≤ frame.tiled_height * desired_height window
      → IsShared windows frame ids wanted
      → IsShared windows frame (id ∷ ids) (desired_height window + wanted)

-- The arithmetic of one share: of `height` pixels for `total` wanted ones, of which this window
-- wants `here` and those below it `below`.
module _ (height here below total remaining : ℕ) (positive : 0 < total) (in_word : height ≤ u32_max)
    (fits : here + below ≤ total) (visible : total ≤ height * here)
    (enough : height * (here + below) ≤ remaining * total) where
  abbrev share : ℕ
  share = height * here / total

  share-le : share * total ≤ height * here
  share-le = div-mul-le_self (height * here) total

  split_product : height * here + height * below ≤ remaining * total
  split_product = omega (arith, enough)

  share-pos : 1 ≤ share
  share-pos = (le-div_iff_mul-le positive).1 (omega (arith, visible))

  share-word : wrap_u32 share ≡ share
  share-word = mod-eq_of_lt (
      omega (
        arith,
        in_word,
        div-le_of_le-mul total {m = height * here} {n = height}
            (omega (arith, mul-le-mul_left height (small))),
      ))
    where
      small : here ≤ total
      small = omega (arith, fits)

  share-remaining : share ≤ remaining
  share-remaining =
      le_of_mul-le-mul_right {k = total} (omega (arith, share-le, split_product)) positive

  share-rest : height * below ≤ (remaining - share) * total
  share-rest =
      rw (mul_comm (remaining - share) total, mul-sub total remaining share)
        (omega (arith, share-le, split_product))

one_left :
    (height here total remaining : ℕ)
    → 0 < total
    → total ≤ height * here
    → height * (here + 0) ≤ remaining * total
    → 1 ≤ remaining
one_left height here total zero p v e = omega (arith, v, e)
one_left height here total (suc r) p v e = omega arith

-- One step of the loop.
abbrev pub placed : ColumnFrame → ℤ → ℕ → WindowId → WindowNode → WindowGeometryProjection
placed frame y height id window = record {
  window_id = id;
  rect = record { x = frame.x; y = y; width = frame.column_width; height = height };
  layer = window.layer;
}

abbrev pub below : ColumnFrame → ℤ → ℕ → List WindowId → ℤ
below frame y height ids =
    let after = wrap_add_i32 y (as_i32 height) in
    if is_empty ids then after else wrap_add_i32 after (capped_i32 frame.window_gap)

pub place_step :
    (windows : Map WindowNode) (frame : ColumnFrame) (y : ℤ) (remaining height : ℕ) (id : WindowId)
    (window : WindowNode) (ids : List WindowId) (gs : List WindowGeometryProjection)
    → get id windows ≡ some window
    → window_height frame window (is_empty ids) remaining ≡ height
    → place_windows windows frame (below frame y height ids) (remaining - height) ids ≡ ok gs
    → place_windows windows frame y remaining (id ∷ ids) ≡ ok (placed frame y height id window ∷ gs)
unfolding place_windows
place_step windows frame y remaining height id window ids gs g h k = rw g (rw h (rw k refl))

last_height :
    (frame : ColumnFrame) (window : WindowNode) (remaining : ℕ)
    → 1 ≤ remaining
    → window_height frame window true remaining ≡ remaining
unfolding window_height
last_height frame window remaining h = omega arith

share_height :
    (frame : ColumnFrame) (window : WindowNode) (remaining : ℕ)
    → wrap_u32 (frame.tiled_height * desired_height window / frame.desired_height_total)
      ≡ frame.tiled_height * desired_height window / frame.desired_height_total
    → 1 ≤ frame.tiled_height * desired_height window / frame.desired_height_total
    → window_height frame window false remaining
      ≡ frame.tiled_height * desired_height window / frame.desired_height_total
unfolding window_height
share_height frame window remaining h k = rw h (omega (arith, k))

nothing :
    (windows : Map WindowNode) (frame : ColumnFrame) (wanted : ℕ)
    → IsShared windows frame [] wanted
    → wanted ≡ 0
nothing windows frame _ shared_nil = refl

-- Windows that exist and whose shares are at least one pixel are placed in order, and their heights
-- add up to exactly the height that remains.
place_windows-remaining :
    (windows : Map WindowNode) (frame : ColumnFrame) (y : ℤ) (remaining : ℕ) (ids : List WindowId)
    (wanted : ℕ)
    → IsShared windows frame ids wanted
    → is_empty ids ≡ false
    → 0 < frame.desired_height_total
    → frame.tiled_height ≤ u32_max
    → wanted ≤ frame.desired_height_total
    → frame.tiled_height * wanted ≤ remaining * frame.desired_height_total
    → (gs : List WindowGeometryProjection) × (place_windows windows frame y remaining ids ≡ ok gs)
      × (placed_ids gs ≡ ids)
      × (total_height gs ≡ remaining)
unfolding place_windows
place_windows-remaining windows frame y remaining _ _ shared_nil n p i f e = cc
place_windows-remaining windows frame y remaining _ _ (shared_cons id window [] wanted g v rest) n p
      i f e =
    let none_below = nothing windows frame wanted rest in
    let visible =
      one_left frame.tiled_height (desired_height window) frame.desired_height_total remaining p v
        (rw (sym none_below) e) in
    (
      placed frame y remaining id window ∷ [],
      place_step windows frame y remaining remaining id window [] [] g
          (last_height frame window remaining visible) refl,
      refl,
      omega arith,
    )
place_windows-remaining windows frame y remaining _ _
      (shared_cons id window (j ∷ ids) wanted g v rest) n p i f e =
    let height =
      share frame.tiled_height (desired_height window) wanted frame.desired_height_total remaining p
        i f v e in
    let left =
      share-remaining frame.tiled_height (desired_height window) wanted frame.desired_height_total
        remaining p i f v e in
    let (gs, done, same, sum) =
      place_windows-remaining windows frame (below frame y height (j ∷ ids)) (remaining - height)
        (j ∷ ids) wanted rest refl p i (omega (arith, f))
        (share-rest frame.tiled_height (desired_height window) wanted frame.desired_height_total
          remaining p i f v e) in
    (
      placed frame y height id window ∷ gs,
      place_step windows frame y remaining height id window (j ∷ ids) gs g
          (share_height frame window remaining
            (share-word frame.tiled_height (desired_height window) wanted frame.desired_height_total
              remaining p i f v e)
            (share-pos frame.tiled_height (desired_height window) wanted frame.desired_height_total
              remaining p i f v e))
          done,
      ap (λ l. id ∷ l) same,
      omega (arith, sum, left),
    )

-- In a column that has windows, all of which exist, where each window's share of the height is at
-- least one pixel, the heights they ask for add up to the total of the frame, and the tiled
-- height is a `u32`, every window is placed, in the order of the column, and the heights add up
-- to exactly the tiled height.
pub place_windows-fills :
    (windows : Map WindowNode) (frame : ColumnFrame) (y : ℤ) (ids : List WindowId)
    → IsShared windows frame ids frame.desired_height_total
    → is_empty ids ≡ false
    → 0 < frame.desired_height_total
    → frame.tiled_height ≤ u32_max
    → (gs : List WindowGeometryProjection) × (place_windows windows frame y frame.tiled_height ids
        ≡ ok gs)
      × (placed_ids gs ≡ ids)
      × (total_height gs ≡ frame.tiled_height)
place_windows-fills windows frame y ids h n p i =
    place_windows-remaining windows frame y frame.tiled_height ids frame.desired_height_total h n p
      i (omega arith) (omega arith)
