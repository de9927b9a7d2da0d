-- ===== src/Hotkeys/Keys.antt =====
-- The keys, messages and modifier masks of apps/core-daemon/src/hotkeys/low_level.rs. The constants of
-- Win32 come from another package and are a parameter.
use Prim.Native.Nat.{bit_or}
use flowtile_wm.Base.{
  ℕ, ◌≡◌, Bool, not, ◌&&◌, ◌||◌, List, if◌then◌else◌, ◌==◌, any, all, retain, is_empty,
}
use flowtile_wm.Base.Sets.{sort}

pub record Win32 : Type 0 where
  pub mod_alt : ℕ
  pub mod_control : ℕ
  pub mod_shift : ℕ
  pub mod_win : ℕ
  pub mod_norepeat : ℕ
  pub vk_shift : ℕ
  pub vk_control : ℕ
  pub vk_menu : ℕ
  pub vk_lwin : ℕ
  pub vk_rwin : ℕ
  pub vk_lshift : ℕ
  pub vk_rshift : ℕ
  pub vk_lcontrol : ℕ
  pub vk_rcontrol : ℕ
  pub vk_lmenu : ℕ
  pub vk_rmenu : ℕ
  pub wm_keydown : ℕ
  pub wm_keyup : ℕ
  pub wm_syskeydown : ℕ
  pub wm_syskeyup : ℕ

-- The documented values of the masks and messages that the theorems rely on.
pub record IsWin32 (w : Win32) : Type 0 where
  pub alt : w.mod_alt ≡ 1
  pub control : w.mod_control ≡ 2
  pub shift : w.mod_shift ≡ 4
  pub win : w.mod_win ≡ 8
  pub keydown : w.wm_keydown ≡ 256
  pub keyup : w.wm_keyup ≡ 257
  pub syskeydown : w.wm_syskeydown ≡ 260
  pub syskeyup : w.wm_syskeyup ≡ 261

abbrev pub lock_workstation_key : ℕ
lock_workstation_key = 76

abbrev pub start_menu_transfer_key : ℕ
start_menu_transfer_key = 83

-- `if held { mask |= bit }`.
abbrev pub with_bit : Bool → ℕ → ℕ → ℕ
with_bit held bit mask = if held then bit_or mask bit else mask

module _ (w : Win32) where
  unfoldable pub is_key_down_message : ℕ → Bool
  is_key_down_message message = message == w.wm_keydown || message == w.wm_syskeydown

  unfoldable pub is_key_up_message : ℕ → Bool
  is_key_up_message message = message == w.wm_keyup || message == w.wm_syskeyup

  unfoldable pub is_keyboard_message : ℕ → Bool
  is_keyboard_message message =
      message == w.wm_keydown
      || message == w.wm_keyup
      || message == w.wm_syskeydown
      || message == w.wm_syskeyup

  unfoldable pub is_control_vk : ℕ → Bool
  is_control_vk vk = vk == w.vk_control || vk == w.vk_lcontrol || vk == w.vk_rcontrol

  unfoldable pub is_alt_vk : ℕ → Bool
  is_alt_vk vk = vk == w.vk_menu || vk == w.vk_lmenu || vk == w.vk_rmenu

  unfoldable pub is_shift_vk : ℕ → Bool
  is_shift_vk vk = vk == w.vk_shift || vk == w.vk_lshift || vk == w.vk_rshift

  unfoldable pub is_win_vk : ℕ → Bool
  is_win_vk vk = vk == w.vk_lwin || vk == w.vk_rwin

  unfoldable pub is_pending_modifier_vk : ℕ → Bool
  is_pending_modifier_vk vk = is_shift_vk vk || is_control_vk vk || is_alt_vk vk

  unfoldable pub active_modifier_mask : List ℕ → ℕ
  active_modifier_mask pressed_keys = with_bit (any is_win_vk pressed_keys) w.mod_win (
      with_bit (any is_shift_vk pressed_keys) w.mod_shift (
        with_bit (any is_alt_vk pressed_keys) w.mod_alt
          (with_bit (any is_control_vk pressed_keys) w.mod_control 0)))

  -- The keys other than `win_vk` that `filter` keeps.
  abbrev pub other_modifiers : List ℕ → ℕ → List ℕ
  other_modifiers pressed_keys win_vk =
      retain (λ key. not (key == win_vk) && is_pending_modifier_vk key) pressed_keys

  unfoldable pub pending_modifier_vks : List ℕ → ℕ → List ℕ
  pending_modifier_vks pressed_keys win_vk = sort (other_modifiers pressed_keys win_vk)

  unfoldable pub is_shell_screenshot_overlay_chord : List ℕ → ℕ → Bool
  is_shell_screenshot_overlay_chord modifier_vks key_vk =
      key_vk == start_menu_transfer_key
      && not (is_empty modifier_vks)
      && all is_shift_vk modifier_vks
