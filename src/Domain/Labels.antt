-- ===== src/Domain/Labels.antt =====
-- The texts of the modes in crates/domain/src/model.rs, and the parsers that read them.
use flowtile_wm.Base.{◌≡◌, refl, ◌↔◌, some, String, arith}
use text.Mathlib.TextEquality.{eq_iff}
use flowtile_wm.Domain.Modes.{
  RuntimeMode, wm_only, extended_shell, safe_mode, runtime_mode_as_str, parse_runtime_mode,
  BindControlMode, coexistence, managed_shell, deep_override, bind_control_mode_as_str,
  parse_bind_control_mode,
}

parse_runtime_mode_iff :
    (value : String) (mode : RuntimeMode)
    → (parse_runtime_mode value ≡ some mode) ↔ (value ≡ runtime_mode_as_str mode)
unfolding parse_runtime_mode runtime_mode_as_str
parse_runtime_mode_iff value wm_only = (
  λ h.
      ground
        (arith, eq_iff value "wm-only", eq_iff value "extended-shell", eq_iff value "safe-mode"),
  λ h. rw h refl,
)
parse_runtime_mode_iff value extended_shell = (
  λ h.
      ground
        (arith, eq_iff value "wm-only", eq_iff value "extended-shell", eq_iff value "safe-mode"),
  λ h. rw h refl,
)
parse_runtime_mode_iff value safe_mode = (
  λ h.
      ground
        (arith, eq_iff value "wm-only", eq_iff value "extended-shell", eq_iff value "safe-mode"),
  λ h. rw h refl,
)

parse_bind_control_mode_iff :
    (value : String) (mode : BindControlMode)
    → (parse_bind_control_mode value ≡ some mode) ↔ (value ≡ bind_control_mode_as_str mode)
unfolding parse_bind_control_mode bind_control_mode_as_str
parse_bind_control_mode_iff value coexistence = (
  λ h. ground (
    arith,
    eq_iff value "coexistence",
    eq_iff value "managed-shell",
    eq_iff value "deep-override",
  ),
  λ h. rw h refl,
)
parse_bind_control_mode_iff value managed_shell = (
  λ h. ground (
    arith,
    eq_iff value "coexistence",
    eq_iff value "managed-shell",
    eq_iff value "deep-override",
  ),
  λ h. rw h refl,
)
parse_bind_control_mode_iff value deep_override = (
  λ h. ground (
    arith,
    eq_iff value "coexistence",
    eq_iff value "managed-shell",
    eq_iff value "deep-override",
  ),
  λ h. rw h refl,
)

-- A text parses as a runtime mode exactly if it is the text of that mode, and as a bind control mode
-- exactly if it is the text of that one.
pub parse_modes_iff :
    (value : String) (mode : RuntimeMode) (control : BindControlMode)
    → ((parse_runtime_mode value ≡ some mode) ↔ (value ≡ runtime_mode_as_str mode))
      × ((parse_bind_control_mode value ≡ some control)
          ↔ (value ≡ bind_control_mode_as_str control))
parse_modes_iff value mode control =
    (parse_runtime_mode_iff value mode, parse_bind_control_mode_iff value control)
