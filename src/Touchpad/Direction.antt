-- ===== src/Touchpad/Direction.antt =====
-- What `recognize_swipe` of apps/core-daemon/src/touchpad/recognizer.rs recognizes.
use flowtile_wm.Base.{
  ℕ, ◌+◌, ◌-◌, ◌*◌, ◌≤◌, pos, ◌≡◌, refl, ◌↔◌, some, none, arith, if◌then◌else◌, ltb, ltb_ℤ, sub_ℕ,
  ◌-ℤ◌, Option, not, ◌&&◌,
}
use flowtile_wm.Base.Words.{as_i32, as_u32, wrap_sub_i32}
use flowtile_wm.Touchpad.Gestures.{
  TouchpadGesture, three_finger_swipe_left, three_finger_swipe_right, three_finger_swipe_up,
  three_finger_swipe_down, four_finger_swipe_left, four_finger_swipe_right, four_finger_swipe_up,
  four_finger_swipe_down,
}
use flowtile_wm.Touchpad.Swipe.{SwipeSession, recognize_swipe, abs_i32, scale_i32, for_fingers}

wrap_sub-exact : (a b : ℕ) → a ≤ 65535 → b ≤ 65535 → wrap_sub_i32 (pos a) (pos b) ≡ sub_ℕ a b
unfolding wrap_sub_i32 ◌-ℤ◌ as_i32 as_u32
wrap_sub-exact a b h k = ground arith

abs-exact : (a b : ℕ) → a ≤ 65535 → b ≤ 65535 → abs_i32 (sub_ℕ a b) ≡ pos (a - b + (b - a))
unfolding abs_i32 as_i32
abs-exact a b h k = ground arith

scale-exact : (n k : ℕ) → n * k ≤ 2147483647 → scale_i32 (pos n) k ≡ pos (n * k)
unfolding scale_i32 as_i32 as_u32
scale-exact n k h = ground arith

positive-exact : (a b : ℕ) → ltb_ℤ (pos 0) (sub_ℕ a b) ≡ ltb b a
positive-exact a b = ground arith

negative-exact : (a b : ℕ) → ltb_ℤ (sub_ℕ a b) (pos 0) ≡ ltb a b
negative-exact a b = ground arith

-- A swipe of some fingers from one point to another, with natural coordinates.
abbrev pub swipe : ℕ → ℕ → ℕ → ℕ → ℕ → SwipeSession
swipe count x₀ y₀ x₁ y₁ = record {
  finger_count = count;
  start_centroid = record { x = pos x₀; y = pos y₀ };
  last_centroid = record { x = pos x₁; y = pos y₁ };
}

-- What the code decides, over natural numbers.
abbrev plain_swipe : ℕ → ℕ → ℕ → ℕ → ℕ → Option TouchpadGesture
plain_swipe count x₀ y₀ x₁ y₁ =
    let abs_x = x₁ - x₀ + (x₀ - x₁) in
    let abs_y = y₁ - y₀ + (y₀ - y₁) in
    let horizontal = not (ltb_ℤ (pos (abs_x * 2)) (pos (abs_y * 3))) in
    let vertical = not (ltb_ℤ (pos (abs_y * 2)) (pos (abs_x * 3))) in
    if ltb_ℤ (pos abs_x) (pos 120) && ltb_ℤ (pos abs_y) (pos 120)
    then none
    else if horizontal && not vertical && ltb x₀ x₁
    then for_fingers count three_finger_swipe_right four_finger_swipe_right
    else if horizontal && not vertical && ltb x₁ x₀
    then for_fingers count three_finger_swipe_left four_finger_swipe_left
    else if not horizontal && vertical && ltb y₀ y₁
    then for_fingers count three_finger_swipe_down four_finger_swipe_down
    else if not horizontal && vertical && ltb y₁ y₀
    then for_fingers count three_finger_swipe_up four_finger_swipe_up
    else none

recognize_swipe-plain :
    (count x₀ y₀ x₁ y₁ : ℕ)
    → x₀ ≤ 65535
    → y₀ ≤ 65535
    → x₁ ≤ 65535
    → y₁ ≤ 65535
    → recognize_swipe (swipe count x₀ y₀ x₁ y₁) ≡ plain_swipe count x₀ y₀ x₁ y₁
unfolding recognize_swipe
recognize_swipe-plain count x₀ y₀ x₁ y₁ a b c d =
    let abs_x = x₁ - x₀ + (x₀ - x₁) in
    let abs_y = y₁ - y₀ + (y₀ - y₁) in
    rw
      (
        wrap_sub-exact x₁ x₀ c a,
        wrap_sub-exact y₁ y₀ d b,
        abs-exact x₁ x₀ c a,
        abs-exact y₁ y₀ d b,
        scale-exact abs_x 2 (omega arith),
        scale-exact abs_y 3 (omega arith),
        scale-exact abs_y 2 (omega arith),
        scale-exact abs_x 3 (omega arith),
        positive-exact x₁ x₀,
        positive-exact y₁ y₀,
        negative-exact x₁ x₀,
        negative-exact y₁ y₀,
      )
      refl

-- The fingers of a gesture, how far a move goes its way, and how far it goes aside.
abbrev pub fingers : TouchpadGesture → ℕ
fingers three_finger_swipe_left = 3
fingers three_finger_swipe_right = 3
fingers three_finger_swipe_up = 3
fingers three_finger_swipe_down = 3
fingers four_finger_swipe_left = 4
fingers four_finger_swipe_right = 4
fingers four_finger_swipe_up = 4
fingers four_finger_swipe_down = 4

abbrev pub along : TouchpadGesture → ℕ → ℕ → ℕ → ℕ → ℕ
along three_finger_swipe_left x₀ y₀ x₁ y₁ = x₀ - x₁
along three_finger_swipe_right x₀ y₀ x₁ y₁ = x₁ - x₀
along three_finger_swipe_up x₀ y₀ x₁ y₁ = y₀ - y₁
along three_finger_swipe_down x₀ y₀ x₁ y₁ = y₁ - y₀
along four_finger_swipe_left x₀ y₀ x₁ y₁ = x₀ - x₁
along four_finger_swipe_right x₀ y₀ x₁ y₁ = x₁ - x₀
along four_finger_swipe_up x₀ y₀ x₁ y₁ = y₀ - y₁
along four_finger_swipe_down x₀ y₀ x₁ y₁ = y₁ - y₀

abbrev pub aside : TouchpadGesture → ℕ → ℕ → ℕ → ℕ → ℕ
aside three_finger_swipe_left x₀ y₀ x₁ y₁ = y₁ - y₀ + (y₀ - y₁)
aside three_finger_swipe_right x₀ y₀ x₁ y₁ = y₁ - y₀ + (y₀ - y₁)
aside three_finger_swipe_up x₀ y₀ x₁ y₁ = x₁ - x₀ + (x₀ - x₁)
aside three_finger_swipe_down x₀ y₀ x₁ y₁ = x₁ - x₀ + (x₀ - x₁)
aside four_finger_swipe_left x₀ y₀ x₁ y₁ = y₁ - y₀ + (y₀ - y₁)
aside four_finger_swipe_right x₀ y₀ x₁ y₁ = y₁ - y₀ + (y₀ - y₁)
aside four_finger_swipe_up x₀ y₀ x₁ y₁ = x₁ - x₀ + (x₀ - x₁)
aside four_finger_swipe_down x₀ y₀ x₁ y₁ = x₁ - x₀ + (x₀ - x₁)

abbrev pub IsSwipe : TouchpadGesture → ℕ → ℕ → ℕ → ℕ → ℕ → Type 0
IsSwipe g count x₀ y₀ x₁ y₁ =
    (count ≡ fingers g)
    × (120 ≤ along g x₀ y₀ x₁ y₁)
    × (3 * aside g x₀ y₀ x₁ y₁ ≤ 2 * along g x₀ y₀ x₁ y₁)

plain_swipe_iff :
    (g : TouchpadGesture) (count x₀ y₀ x₁ y₁ : ℕ)
    → (plain_swipe count x₀ y₀ x₁ y₁ ≡ some g) ↔ IsSwipe g count x₀ y₀ x₁ y₁
plain_swipe_iff three_finger_swipe_left count x₀ y₀ x₁ y₁ = (λ h. ground arith, λ h. ground arith)
plain_swipe_iff three_finger_swipe_right count x₀ y₀ x₁ y₁ = (λ h. ground arith, λ h. ground arith)
plain_swipe_iff three_finger_swipe_up count x₀ y₀ x₁ y₁ = (λ h. ground arith, λ h. ground arith)
plain_swipe_iff three_finger_swipe_down count x₀ y₀ x₁ y₁ = (λ h. ground arith, λ h. ground arith)
plain_swipe_iff four_finger_swipe_left count x₀ y₀ x₁ y₁ = (λ h. ground arith, λ h. ground arith)
plain_swipe_iff four_finger_swipe_right count x₀ y₀ x₁ y₁ = (λ h. ground arith, λ h. ground arith)
plain_swipe_iff four_finger_swipe_up count x₀ y₀ x₁ y₁ = (λ h. ground arith, λ h. ground arith)
plain_swipe_iff four_finger_swipe_down count x₀ y₀ x₁ y₁ = (λ h. ground arith, λ h. ground arith)

-- On a touchpad whose coordinates are `u16`, a session gives a gesture exactly if its finger count is
-- that of the gesture, the move goes its way by at least the threshold, and it goes aside by at most
-- two thirds of that.
pub recognize_swipe_iff :
    (g : TouchpadGesture) (count x₀ y₀ x₁ y₁ : ℕ)
    → x₀ ≤ 65535
    → y₀ ≤ 65535
    → x₁ ≤ 65535
    → y₁ ≤ 65535
    → (recognize_swipe (swipe count x₀ y₀ x₁ y₁) ≡ some g) ↔ IsSwipe g count x₀ y₀ x₁ y₁
recognize_swipe_iff g count x₀ y₀ x₁ y₁ a b c d =
    rw (recognize_swipe-plain count x₀ y₀ x₁ y₁ a b c d) (plain_swipe_iff g count x₀ y₀ x₁ y₁)
