-- ===== src/Domain/Extent.antt =====
-- The range of `WidthSemantics::resolve` of crates/domain/src/model.rs.
use flowtile_wm.Base.{ℕ, ◌*◌, ◌/◌, ◌≤◌, ◌<◌, max, arith, ◌≡◌, refl, false, ◌==◌}
use flowtile_wm.Base.Words.{u32_max, wrap_u32}
use flowtile_wm.Domain.Modes.{monitor_fraction, resolve}
use native.Mathlib.Nat.{div-le_of_le-mul, mod-eq_of_lt, mul-le-mul_right, mul_comm}

-- A fraction that is at most one, of a monitor that is at least one pixel wide and whose width is a
-- `u32`, is at least one pixel and no wider than the monitor, and it is the exact quotient where
-- that is at least one.
pub resolve-bounds :
    (numerator denominator monitor_width : ℕ)
    → 0 < denominator
    → numerator ≤ denominator
    → 1 ≤ monitor_width
    → monitor_width ≤ u32_max
    → (1 ≤ resolve (monitor_fraction numerator denominator) monitor_width)
      × (resolve (monitor_fraction numerator denominator) monitor_width ≤ monitor_width)
      × (resolve (monitor_fraction numerator denominator) monitor_width
          ≡ max (monitor_width * numerator / denominator) 1)
unfolding resolve
resolve-bounds numerator denominator monitor_width d n m u =
    let quotient =
      div-le_of_le-mul denominator {m = monitor_width * numerator} {n = monitor_width} scaled in
    let word : wrap_u32 (monitor_width * numerator / denominator)
        ≡ monitor_width * numerator / denominator =
      mod-eq_of_lt (omega (arith, quotient, u)) in
    rw (divides, word) (omega arith, omega (arith, quotient, m), refl)
  where
    scaled : monitor_width * numerator ≤ denominator * monitor_width
    scaled = rw (mul_comm monitor_width numerator) (mul-le-mul_right monitor_width n)

    divides : (denominator == 0) ≡ false
    divides = ground arith
