-- ===== src/Domain/Modes.antt =====
-- The enumerations of crates/domain/src/model.rs, with their texts and the resolution of widths.
use flowtile_wm.Base.{
  ℕ, ◌*◌, ◌/◌, max, Bool, true, false, Option, none, some, String, if◌then◌else◌, ◌==◌, List, [],
  ◌∷◌,
}
use flowtile_wm.Base.Text.{eq_text}
use flowtile_wm.Base.Words.{wrap_u32}

pub data RuntimeMode : Type 0 where
  wm_only extended_shell safe_mode : RuntimeMode

unfoldable pub runtime_mode_as_str : RuntimeMode → String
runtime_mode_as_str wm_only = "wm-only"
runtime_mode_as_str extended_shell = "extended-shell"
runtime_mode_as_str safe_mode = "safe-mode"

unfoldable pub parse_runtime_mode : String → Option RuntimeMode
parse_runtime_mode value =
    if eq_text value "wm-only"
    then some wm_only
    else if eq_text value "extended-shell"
    then some extended_shell
    else if eq_text value "safe-mode"
    then some safe_mode
    else none

pub data BindControlMode : Type 0 where
  coexistence managed_shell deep_override : BindControlMode

unfoldable pub bind_control_mode_as_str : BindControlMode → String
bind_control_mode_as_str coexistence = "coexistence"
bind_control_mode_as_str managed_shell = "managed-shell"
bind_control_mode_as_str deep_override = "deep-override"

unfoldable pub parse_bind_control_mode : String → Option BindControlMode
parse_bind_control_mode value =
    if eq_text value "coexistence"
    then some coexistence
    else if eq_text value "managed-shell"
    then some managed_shell
    else if eq_text value "deep-override"
    then some deep_override
    else none

pub data TopologyRole : Type 0 where
  primary secondary : TopologyRole

pub data StripLayoutMode : Type 0 where
  columns : StripLayoutMode

pub data ColumnMode : Type 0 where
  normal tabbed maximized_column custom_width : ColumnMode

unfoldable pub column_mode_as_str : ColumnMode → String
column_mode_as_str normal = "normal"
column_mode_as_str tabbed = "tabbed"
column_mode_as_str maximized_column = "maximized-column"
column_mode_as_str custom_width = "custom-width"

abbrev pub all_column_modes : List ColumnMode
all_column_modes = normal ∷ tabbed ∷ maximized_column ∷ custom_width ∷ []

-- `mode == ColumnMode::Tabbed` and `mode == ColumnMode::MaximizedColumn`.
abbrev pub is_tabbed : ColumnMode → Bool
is_tabbed tabbed = true
is_tabbed _ = false

abbrev pub is_maximized_column : ColumnMode → Bool
is_maximized_column maximized_column = true
is_maximized_column _ = false

pub data WidthSemantics : Type 0 where
  fixed : ℕ → WidthSemantics
  monitor_fraction : ℕ → ℕ → WidthSemantics
  full : WidthSemantics

abbrev pub default_width_semantics : WidthSemantics
default_width_semantics = monitor_fraction 1 2

-- The product of two `u32` fits the `u64` that it is computed in; the quotient is cast to `u32`.
unfoldable pub resolve : WidthSemantics → ℕ → ℕ
resolve (fixed width) monitor_width = max width 1
resolve (monitor_fraction numerator denominator) monitor_width =
    max
      (if denominator == 0
        then max monitor_width 1
        else wrap_u32 (monitor_width * numerator / denominator))
      1
resolve full monitor_width = max monitor_width 1

pub data ResizeEdge : Type 0 where
  left right : ResizeEdge

pub data MaximizedState : Type 0 where
  restored maximized : MaximizedState

abbrev pub is_maximized : MaximizedState → Bool
is_maximized restored = false
is_maximized maximized = true

pub data WindowClassification : Type 0 where
  application utility overlay : WindowClassification

pub data WindowLayer : Type 0 where
  tiled floating fullscreen : WindowLayer

abbrev pub is_tiled_layer : WindowLayer → Bool
is_tiled_layer tiled = true
is_tiled_layer _ = false

abbrev pub is_floating_layer : WindowLayer → Bool
is_floating_layer floating = true
is_floating_layer _ = false

abbrev pub is_fullscreen_layer : WindowLayer → Bool
is_fullscreen_layer fullscreen = true
is_fullscreen_layer _ = false

pub data FocusOrigin : Type 0 where
  reducer_default user_command platform_observation : FocusOrigin
