-- ===== src/Base/Words.antt =====
-- The fixed-width integers of Rust. An unsigned word is a natural number and an `i32` an integer;
-- `saturating_*` clamps, `as` casts wrap, and plain arithmetic wraps as it does in a release build.
use Prim.Native.Nat.{ℕ, suc, ◌+◌, ◌-◌, ◌*◌, ◌/◌, ◌%◌, ◌≤◌, min}
use mathlib.Core.Path.{◌≡◌}
use native.Mathlib.Omega.{arith}
use flowtile_wm.Base.Tests.{if◌then◌else◌, ltb, leb}
use flowtile_wm.Base.Int.{ℤ, pos, negsuc, pos_part, neg_part, sub_ℕ, ◌+ℤ◌, ◌-ℤ◌, ◌≤ℤ◌, ltb_ℤ}

abbrev pub u32_max : ℕ
u32_max = 4294967295

abbrev pub i32_max : ℕ
i32_max = 2147483647

abbrev pub u64_max : ℕ
u64_max = 18446744073709551615

-- Wrap-around of `u32` and `u64` arithmetic.
abbrev pub wrap_u32 : ℕ → ℕ
wrap_u32 n = n % 4294967296

abbrev pub wrap_u64 : ℕ → ℕ
wrap_u64 n = n % 18446744073709551616

-- `saturating_add` and `saturating_mul` on `u32`; `saturating_add` on `u64`.
-- `saturating_sub` on an unsigned word is the truncated `-`.
abbrev pub sat_add_u32 : ℕ → ℕ → ℕ
sat_add_u32 a b = min (a + b) u32_max

abbrev pub sat_mul_u32 : ℕ → ℕ → ℕ
sat_mul_u32 a b = min (a * b) u32_max

abbrev pub sat_add_u64 : ℕ → ℕ → ℕ
sat_add_u64 a b = min (a + b) u64_max

-- The integers that an `i32` holds.
abbrev pub IsI32 : ℤ → Type 0
IsI32 z = (pos_part z ≤ i32_max) × (neg_part z ≤ 2147483648)

unfoldable pub saturate_i32 : ℤ → ℤ
saturate_i32 (pos n) = pos (min n i32_max)
saturate_i32 (negsuc n) = negsuc (min n i32_max)

unfoldable pub sat_add_i32 : ℤ → ℤ → ℤ
sat_add_i32 a b = saturate_i32 (a +ℤ b)

unfoldable pub sat_sub_i32 : ℤ → ℤ → ℤ
sat_sub_i32 a b = saturate_i32 (a -ℤ b)

-- `n as i32` for a `u32`, and `z as u32` for an `i32`.
unfoldable pub as_i32 : ℕ → ℤ
as_i32 n = let word = wrap_u32 n in if leb word i32_max then pos word else negsuc (u32_max - word)

unfoldable pub as_u32 : ℤ → ℕ
as_u32 (pos n) = wrap_u32 n
as_u32 (negsuc n) = u32_max - wrap_u32 n

-- Plain `+` and `-` on `i32`.
unfoldable pub wrap_add_i32 : ℤ → ℤ → ℤ
unfolding as_i32 as_u32
wrap_add_i32 a b = as_i32 (as_u32 (a +ℤ b))

unfoldable pub wrap_sub_i32 : ℤ → ℤ → ℤ
unfolding as_i32 as_u32
wrap_sub_i32 a b = as_i32 (as_u32 (a -ℤ b))

-- `n.min(i32::MAX as u32) as i32`.
abbrev pub capped_i32 : ℕ → ℤ
capped_i32 n = pos (min n i32_max)

-- `z / 2`, which rounds towards zero.
unfoldable pub half_i32 : ℤ → ℤ
half_i32 (pos n) = pos (n / 2)
half_i32 (negsuc n) = sub_ℕ 0 (suc n / 2)

-- `Ord::min`, `Ord::max` and `Ord::clamp`, at bounds in order.
unfoldable pub min_i32 : ℤ → ℤ → ℤ
min_i32 a b = if ltb_ℤ b a then b else a

unfoldable pub max_i32 : ℤ → ℤ → ℤ
max_i32 a b = if ltb_ℤ b a then a else b

unfoldable pub clamp_i32 : ℤ → ℤ → ℤ → ℤ
clamp_i32 z lo hi = if ltb_ℤ z lo then lo else if ltb_ℤ hi z then hi else z

unfoldable pub clamp_u32 : ℕ → ℕ → ℕ → ℕ
clamp_u32 n lo hi = if ltb n lo then lo else if ltb hi n then hi else n

-- A clamped value lies between its bounds.
pub clamp_i32_bounds :
    (z lo hi : ℤ) → lo ≤ℤ hi → (lo ≤ℤ clamp_i32 z lo hi) × (clamp_i32 z lo hi ≤ℤ hi)
unfolding clamp_i32
clamp_i32_bounds z lo hi h = ground arith

pub clamp_u32_bounds : (n lo hi : ℕ) → lo ≤ hi → (lo ≤ clamp_u32 n lo hi) × (clamp_u32 n lo hi ≤ hi)
unfolding clamp_u32
clamp_u32_bounds n lo hi h = ground arith

-- A value within the bounds is left as it is.
pub clamp_i32-eq : (z lo hi : ℤ) → lo ≤ℤ z → z ≤ℤ hi → clamp_i32 z lo hi ≡ z
unfolding clamp_i32
clamp_i32-eq z lo hi h k = ground arith

-- Saturating arithmetic on values in range is exact where the sum is in range.
pub saturate_i32-eq : (z : ℤ) → IsI32 z → saturate_i32 z ≡ z
unfolding saturate_i32
saturate_i32-eq (pos n) h = ground arith
saturate_i32-eq (negsuc n) h = ground arith

pub saturate_i32-IsI32 : (z : ℤ) → IsI32 (saturate_i32 z)
unfolding saturate_i32
saturate_i32-IsI32 (pos n) = omega arith
saturate_i32-IsI32 (negsuc n) = omega arith

pub as_i32-eq : (n : ℕ) → n ≤ i32_max → as_i32 n ≡ pos n
unfolding as_i32
as_i32-eq n h = ground arith

pub wrap_add_i32-eq : (a b : ℤ) → IsI32 (a +ℤ b) → wrap_add_i32 a b ≡ a +ℤ b
unfolding wrap_add_i32
wrap_add_i32-eq a b h = word_trip (a +ℤ b) h
  where
    word_trip : (z : ℤ) → IsI32 z → as_i32 (as_u32 z) ≡ z
    word_trip (pos n) k = ground arith
    word_trip (negsuc n) k = ground arith
