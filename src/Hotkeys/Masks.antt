-- ===== src/Hotkeys/Masks.antt =====
-- Which modifiers a mask of apps/core-daemon/src/hotkeys/low_level.rs contains.
use Prim.Native.Nat.{bit_and}
use flowtile_wm.Base.{
  ℕ, ◌+◌, ◌≡◌, refl, Bool, true, false, ◌&&◌, List, if◌then◌else◌, ◌==◌, ==_iff, any, arith,
}
use flowtile_wm.Base.Sets.{insert_key}
use flowtile_wm.Hotkeys.Keys.{
  Win32, IsWin32, with_bit, active_modifier_mask, is_control_vk, is_alt_vk, is_shift_vk, is_win_vk,
}

-- The modifiers of a mask, each one held or not.
pub record Modifiers : Type 0 where
  pub control : Bool
  pub alt : Bool
  pub shift : Bool
  pub win : Bool

abbrev pub mask_of : Modifiers → ℕ
mask_of m =
    (if m.win then 8 else 0)
    + (if m.shift then 4 else 0)
    + (if m.alt then 1 else 0)
    + (if m.control then 2 else 0)

implies : Bool → Bool → Bool
implies true b = b
implies false b = true

unfoldable pub leb_modifiers : Modifiers → Modifiers → Bool
unfolding implies
leb_modifiers m n =
    implies m.control n.control
    && implies m.alt n.alt
    && implies m.shift n.shift
    && implies m.win n.win

-- A test of all Boolean values.
unfoldable pub both : (Bool → Bool) → Bool
both test = test true && test false

pub both_sound : (test : Bool → Bool) → both test ≡ true → (b : Bool) → test b ≡ true
unfolding both
both_sound test h true = ground arith
both_sound test h false = ground arith

eq_bool : Bool → Bool → Bool
eq_bool true b = b
eq_bool false true = false
eq_bool false false = true

eq_bool_sound : (a b : Bool) → eq_bool a b ≡ true → a ≡ b
unfolding eq_bool
eq_bool_sound true b h = ground arith
eq_bool_sound false true h = ground arith
eq_bool_sound false false h = refl

abbrev pub modifiers : Bool → Bool → Bool → Bool → Modifiers
modifiers control alt shift win = record { control = control; alt = alt; shift = shift; win = win }

agrees : Bool → Bool → Bool → Bool → Bool → Bool → Bool → Bool → Bool
unfolding eq_bool leb_modifiers
agrees c a s w c' a' s' w' =
    eq_bool
      (bit_and (mask_of (modifiers c a s w)) (mask_of (modifiers c' a' s' w'))
        == mask_of (modifiers c' a' s' w'))
      (leb_modifiers (modifiers c' a' s' w') (modifiers c a s w))

agrees_everywhere :
    both (λ c. both (λ a. both (λ s.
      both (λ w. both (λ c'. both (λ a'. both (λ s'. both (λ w'. agrees c a s w c' a' s' w'))))))))
    ≡ true
unfolding both agrees
agrees_everywhere = refl

-- A mask is contained in another, as the code tests it, exactly if its modifiers are.
pub bit_and-leb_modifiers :
    (m n : Modifiers) → (bit_and (mask_of m) (mask_of n) == mask_of n) ≡ leb_modifiers n m
unfolding agrees
bit_and-leb_modifiers m n =
    let h₁ = both_sound _ agrees_everywhere m.control in
    let h₂ = both_sound _ h₁ m.alt in
    let h₃ = both_sound _ h₂ m.shift in
    let h₄ = both_sound _ h₃ m.win in
    let h₅ = both_sound _ h₄ n.control in
    let h₆ = both_sound _ h₅ n.alt in
    let h₇ = both_sound _ h₆ n.shift in eq_bool_sound _ _ (both_sound _ h₇ n.win)

-- The modifiers that the pressed keys hold.
unfoldable pub held : Win32 → List ℕ → Modifiers
held w pressed_keys = record {
  control = any (is_control_vk w) pressed_keys;
  alt = any (is_alt_vk w) pressed_keys;
  shift = any (is_shift_vk w) pressed_keys;
  win = any (is_win_vk w) pressed_keys;
}

abbrev bits : Bool → Bool → Bool → Bool → ℕ
bits c a s l = with_bit l 8 (with_bit s 4 (with_bit a 1 (with_bit c 2 0)))

bits_everywhere :
    both (λ c. both (λ a. both (λ s. both (λ l. bits c a s l == mask_of (modifiers c a s l)))))
    ≡ true
unfolding both
bits_everywhere = refl

bits-eq : (c a s l : Bool) → bits c a s l ≡ mask_of (modifiers c a s l)
bits-eq c a s l =
    let h₁ = both_sound _ bits_everywhere c in
    let h₂ = both_sound _ h₁ a in let h₃ = both_sound _ h₂ s in (==_iff _ _).0 (both_sound _ h₃ l)

pub active_modifier_mask-eq :
    (w : Win32)
    → IsWin32 w
    → (pressed_keys : List ℕ) → active_modifier_mask w pressed_keys ≡ mask_of (held w pressed_keys)
unfolding active_modifier_mask held
active_modifier_mask-eq w h pressed_keys = rw (h.win, h.shift, h.alt, h.control) (bits-eq _ _ _ _)

-- One more key holds at least the modifiers that were held before.
any-insert_key :
    (test : ℕ → Bool) (k : ℕ) (xs : List ℕ)
    → implies (any test xs) (any test (insert_key k xs)) ≡ true
unfolding implies insert_key
any-insert_key test k xs = ground arith

implies_trans : (a b c : Bool) → implies a b ≡ true → implies b c ≡ true → implies a c ≡ true
unfolding implies
implies_trans true true c h k = k
implies_trans true false c h k = ground arith
implies_trans false b c h k = refl

implies_refl : (a : Bool) → implies a a ≡ true
unfolding implies
implies_refl true = refl
implies_refl false = refl

pub leb_modifiers_refl : (m : Modifiers) → leb_modifiers m m ≡ true
unfolding leb_modifiers
leb_modifiers_refl m =
    rw (implies_refl m.control, implies_refl m.alt, implies_refl m.shift, implies_refl m.win) refl

pub leb_modifiers_trans :
    (l m n : Modifiers)
    → leb_modifiers l m ≡ true
    → leb_modifiers m n ≡ true
    → leb_modifiers l n ≡ true
unfolding leb_modifiers
leb_modifiers_trans l m n h k = ground (
  arith,
  implies_trans l.control m.control n.control,
  implies_trans l.alt m.alt n.alt,
  implies_trans l.shift m.shift n.shift,
  implies_trans l.win m.win n.win,
)

pub leb_modifiers-insert_key :
    (w : Win32) (k : ℕ) (xs : List ℕ) → leb_modifiers (held w xs) (held w (insert_key k xs)) ≡ true
unfolding leb_modifiers held
leb_modifiers-insert_key w k xs =
    rw
      (
        any-insert_key (is_control_vk w) k xs,
        any-insert_key (is_alt_vk w) k xs,
        any-insert_key (is_shift_vk w) k xs,
        any-insert_key (is_win_vk w) k xs,
      )
      refl
