-- ===== src/Touchpad/Assessment.antt =====
-- Whether the touchpad override can work, in apps/core-daemon/src/touchpad/assessment.rs. The setting
-- that the registry holds is an argument.
use Prim.Native.String.{◌++◌}
use flowtile_wm.Base.{
  ℕ, Bool, true, false, not, Option, none, some, String, if◌then◌else◌, ◌==◌, length, is_empty,
  unwrap_or, Result, ok, err,
}
use flowtile_wm.Base.Text.{eq_text}
use flowtile_wm.Touchpad.Gestures.{
  TouchpadConfig, TouchpadBindingSet, TouchpadListenerError, startup, from_config,
}

abbrev pub required_status : String
required_status = "windows-touch-gestures-enabled"

abbrev pub unknown_status : String
unknown_status = "windows-touch-gesture-setting-unknown"

abbrev pub backend_unavailable_status : String
backend_unavailable_status = "touchpad-backend-unavailable"

abbrev pub settings_uri : String
settings_uri = "ms-settings:devices-touch"

pub data SystemTouchGestureSetting : Type 0 where
  disabled enabled : SystemTouchGestureSetting
  unknown : String → SystemTouchGestureSetting

pub record TouchpadOverrideAssessment : Type 0 where
  pub requested : Bool
  pub configured_gesture_count : ℕ
  pub normalized_gesture_count : ℕ
  pub status : String
  pub detail : Option String

unfoldable pub summary_label : TouchpadOverrideAssessment → String
summary_label assessment =
    if eq_text assessment.status "disabled"
    then "disabled"
    else if eq_text assessment.status "ready"
    then "enabled"
    else if eq_text assessment.status "invalid-config"
    then "invalid-config"
    else if eq_text assessment.status required_status
    then "windows-setting-required"
    else if eq_text assessment.status unknown_status
    then "windows-setting-unknown"
    else if eq_text assessment.status backend_unavailable_status
    then "backend-unavailable"
    else assessment.status

-- An assessment of an override that is requested.
abbrev pub requested_with : TouchpadConfig → ℕ → String → Option String → TouchpadOverrideAssessment
requested_with config normalized status detail = record {
  requested = true;
  configured_gesture_count = length config.gestures;
  normalized_gesture_count = normalized;
  status = status;
  detail = detail;
}

-- The last match of the function, by the setting of the system.
unfoldable pub assess_setting :
    TouchpadConfig → ℕ → SystemTouchGestureSetting → TouchpadOverrideAssessment
assess_setting config normalized enabled = requested_with config normalized required_status (
    some (
      "Windows still owns three/four-finger touch gestures. Set Settings > Bluetooth & devices > Touch > Three- and four-finger touch gestures to Off and restart or reload the daemon ("
      ++ settings_uri ++ ")"))
assess_setting config normalized (unknown message) =
    requested_with config normalized unknown_status (
      some (
        "FlowtileWM could not verify the Windows touch gesture setting: " ++ message ++ ". Open "
        ++ settings_uri ++ " and ensure Three- and four-finger touch gestures is Off"))
assess_setting config normalized disabled = requested_with config normalized "ready" none

-- The text of an error.
abbrev pub error_text : TouchpadListenerError → String
error_text (startup message) = message

unfoldable pub assess_bindings :
    TouchpadConfig
    → SystemTouchGestureSetting
    → Result TouchpadListenerError TouchpadBindingSet
    → TouchpadOverrideAssessment
unfolding assess_setting
assess_bindings config system_setting (err error) =
    requested_with config 0 "invalid-config" (some (error_text error))
assess_bindings config system_setting (ok set) =
    if not (length set.bindings == length config.gestures)
    then requested_with config (length set.bindings) "invalid-config"
        (some "touchpad gesture configuration contains duplicate gesture bindings")
    else assess_setting config (length set.bindings) system_setting

unfoldable pub assess_touchpad_override_with_system_setting :
    TouchpadConfig → SystemTouchGestureSetting → TouchpadOverrideAssessment
unfolding assess_bindings
assess_touchpad_override_with_system_setting config system_setting =
    if not config.override_enabled
    then record {
      requested = false;
      configured_gesture_count = length config.gestures;
      normalized_gesture_count = 0;
      status = "disabled";
      detail = none;
    }
    else if is_empty config.gestures
    then requested_with config 0 "invalid-config"
        (some "touchpad override is enabled but no touchpad gestures are configured")
    else assess_bindings config system_setting (from_config config)

-- `ensure_touchpad_override_supported`, after the assessment.
unfoldable pub ensure_supported : TouchpadOverrideAssessment → Result TouchpadListenerError Unit
ensure_supported assessment =
    if eq_text assessment.status "disabled"
    then ok tt
    else if eq_text assessment.status "invalid-config"
    then err (startup (unwrap_or assessment.detail "touchpad override configuration is invalid"))
    else if eq_text assessment.status required_status
    then err (startup (unwrap_or assessment.detail "touchpad override configuration is invalid"))
    else if eq_text assessment.status unknown_status
    then err (startup (unwrap_or assessment.detail "touchpad override configuration is invalid"))
    else ok tt
