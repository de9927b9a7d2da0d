-- ===== src/Layout/Origin.antt =====
-- Where the strip starts, in `strip_origin_x` of crates/layout-engine/src/lib.rs.
use flowtile_wm.Base.{
  ℕ, ◌-◌, ◌≤◌, ◌<◌, ◌≡◌, refl, min, ℤ, pos, ◌+ℤ◌, ◌≤ℤ◌, +ℤ_exact, eq_of_parts, true, false, some,
  List, [], ◌∷◌, length, last, is_empty, leb, ◌==◌, arith,
}
use flowtile_wm.Base.Words.{i32_max, IsI32, sat_add_i32, capped_i32, saturate_i32-eq}
use flowtile_wm.Domain.{ColumnId}
use flowtile_wm.Layout.Columns.{strip_origin_x}

-- A shift to the right that stays within an `i32` is exact.
sat_add_i32-exact :
    (x : ℤ) (n : ℕ)
    → IsI32 x
    → n ≤ i32_max
    → x +ℤ pos n ≤ℤ pos i32_max
    → sat_add_i32 x (capped_i32 n) ≡ x +ℤ pos n
unfolding sat_add_i32
sat_add_i32-exact x n h b k =
    rw (capped n b) (saturate_i32-eq (x +ℤ pos n) (omega (arith, +ℤ_exact x (pos n))))
  where
    capped : (n : ℕ) → n ≤ i32_max → min n i32_max ≡ n
    capped n b = omega arith

-- A strip of two or more columns that is narrower than the viewport, with the focus on its last
-- column, ends where the viewport ends, whatever the scroll offset, for a viewport whose left
-- end, width and right end are within an `i32`.
pub strip_origin_x-pinned :
    (x : ℤ) (viewport_width content_width : ℕ) (ids : List ColumnId) (id : ColumnId) (offset : ℤ)
    → IsI32 x
    → viewport_width ≤ i32_max
    → x +ℤ pos viewport_width ≤ℤ pos i32_max
    → content_width < viewport_width
    → 2 ≤ length ids
    → last ids ≡ some id
    → strip_origin_x x viewport_width content_width ids (some id) offset +ℤ pos content_width
      ≡ x +ℤ pos viewport_width
unfolding strip_origin_x
strip_origin_x-pinned x v c ids id offset h b k l n e =
    rw
      (
        wider,
        not_empty ids n,
        several,
        e,
        same id,
        sat_add_i32-exact x (v - c) h (omega arith)
            (omega (arith, +ℤ_exact x (pos v), +ℤ_exact x (pos (v - c)))),
      )
      (eq_of_parts (x +ℤ pos (v - c) +ℤ pos c) (x +ℤ pos v) (
        omega (
          arith,
          +ℤ_exact x (pos v),
          +ℤ_exact x (pos (v - c)),
          +ℤ_exact (x +ℤ pos (v - c)) (pos c),
        )))
  where
    wider : leb v c ≡ false
    wider = ground arith

    not_empty : (ids : List ColumnId) → 2 ≤ length ids → is_empty ids ≡ false
    not_empty [] n = elim n [ ]
    not_empty (a ∷ ids) n = refl

    several : (length ids == 1) ≡ false
    several = ground arith

    same : (id : ColumnId) → (id == id) ≡ true
    same id = ground arith
