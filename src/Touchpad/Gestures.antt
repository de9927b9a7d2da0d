-- ===== src/Touchpad/Gestures.antt =====
-- The gestures and their bindings in apps/core-daemon/src/touchpad/bindings.rs.
use Prim.Native.String.{◌++◌}
use flowtile_wm.Base.{
  ℕ, Bool, Option, none, some, String, List, [], ◌∷◌, if◌then◌else◌, Result, ok, err, and_then_ok,
  ok_or, map_some,
}
use flowtile_wm.Base.Map.{Map, empty, get, put}
use flowtile_wm.Base.Text.{eq_text}
use flowtile_wm.Hotkeys.Commands.{
  WatchCommand, from_input_command, as_ipc_command_name, as_hotkey_command_name,
}

pub data TouchpadGesture : Type 0 where
  three_finger_swipe_left three_finger_swipe_right three_finger_swipe_up three_finger_swipe_down :
      TouchpadGesture
  four_finger_swipe_left four_finger_swipe_right four_finger_swipe_up four_finger_swipe_down :
      TouchpadGesture

pub data TouchpadListenerError : Type 0 where
  startup : String → TouchpadListenerError

abbrev Outcome : Type 0 → Type 0
Outcome = Result TouchpadListenerError

infixl 5 ◌>>=◌
abbrev ◌>>=◌ : {A B : Type 0} → Outcome A → (A → Outcome B) → Outcome B
m >>= f = and_then_ok m f

abbrev pub quoted : String → String → String
quoted text rest = "'" ++ text ++ "'" ++ rest

unfoldable pub parse_gesture : String → Outcome TouchpadGesture
parse_gesture value =
    if eq_text value "three-finger-swipe-left"
    then ok three_finger_swipe_left
    else if eq_text value "three-finger-swipe-right"
    then ok three_finger_swipe_right
    else if eq_text value "three-finger-swipe-up"
    then ok three_finger_swipe_up
    else if eq_text value "three-finger-swipe-down"
    then ok three_finger_swipe_down
    else if eq_text value "four-finger-swipe-left"
    then ok four_finger_swipe_left
    else if eq_text value "four-finger-swipe-right"
    then ok four_finger_swipe_right
    else if eq_text value "four-finger-swipe-up"
    then ok four_finger_swipe_up
    else if eq_text value "four-finger-swipe-down"
    then ok four_finger_swipe_down
    else err (startup ("unsupported touchpad gesture " ++ quoted value ""))

unfoldable pub gesture_name : TouchpadGesture → String
gesture_name three_finger_swipe_left = "three-finger-swipe-left"
gesture_name three_finger_swipe_right = "three-finger-swipe-right"
gesture_name three_finger_swipe_up = "three-finger-swipe-up"
gesture_name three_finger_swipe_down = "three-finger-swipe-down"
gesture_name four_finger_swipe_left = "four-finger-swipe-left"
gesture_name four_finger_swipe_right = "four-finger-swipe-right"
gesture_name four_finger_swipe_up = "four-finger-swipe-up"
gesture_name four_finger_swipe_down = "four-finger-swipe-down"

-- The keys of the map from gestures.
abbrev pub gesture_key : TouchpadGesture → ℕ
gesture_key three_finger_swipe_left = 0
gesture_key three_finger_swipe_right = 1
gesture_key three_finger_swipe_up = 2
gesture_key three_finger_swipe_down = 3
gesture_key four_finger_swipe_left = 4
gesture_key four_finger_swipe_right = 5
gesture_key four_finger_swipe_up = 6
gesture_key four_finger_swipe_down = 7

pub record TouchpadGestureBinding : Type 0 where
  pub gesture : String
  pub command : String

pub record TouchpadConfig : Type 0 where
  pub override_enabled : Bool
  pub gestures : List TouchpadGestureBinding

pub record NormalizedTouchpadBinding : Type 0 where
  pub gesture : TouchpadGesture
  pub command : WatchCommand

unfoldable pub normalize_binding : TouchpadGestureBinding → Outcome NormalizedTouchpadBinding
normalize_binding binding = do
  gesture ← parse_gesture binding.gesture
  command ← ok_or (from_input_command binding.command) (
      startup (
        "touchpad gesture "
        ++ quoted binding.gesture (" uses unsupported command " ++ quoted binding.command "")))
  ok (record { gesture = gesture; command = command })

pub record TouchpadBindingSet : Type 0 where
  pub bindings : Map WatchCommand

-- The loop of `from_config`, with the map that it has built so far.
unfoldable pub insert_bindings :
    List TouchpadGestureBinding → Map WatchCommand → Outcome (Map WatchCommand)
insert_bindings [] bindings = ok bindings
insert_bindings (binding ∷ rest) bindings = do
  normalized ← normalize_binding binding
  insert_bindings rest (put (gesture_key normalized.gesture) normalized.command bindings)

unfoldable pub from_config : TouchpadConfig → Outcome TouchpadBindingSet
from_config config = do
  bindings ← insert_bindings config.gestures empty
  ok (record { bindings = bindings })

unfoldable pub command_for : TouchpadBindingSet → TouchpadGesture → Option WatchCommand
command_for set gesture = get (gesture_key gesture) set.bindings

unfoldable pub ipc_command_for_touchpad_gesture : TouchpadConfig → String → Outcome (Option String)
ipc_command_for_touchpad_gesture config text = do
  set ← from_config config
  gesture ← parse_gesture text
  elim (command_for set gesture) [
    | none ↦ ok none
    | some command ↦ ok_or (map_some (as_ipc_command_name command) some) (
        startup (
          "touchpad gesture "
          ++ quoted (gesture_name gesture) (
              " resolves to unsupported IPC command "
              ++ quoted (as_hotkey_command_name command) "")))
  ]
