-- ===== src/Domain/Config.antt =====
-- The configuration, capture policy and diagnostics records of crates/domain/src/model.rs.
use flowtile_wm.Base.{
  ℕ, Bool, true, false, Option, none, some, String, List, [], ◌∷◌, is_empty, any, if◌then◌else◌,
}
use flowtile_wm.Base.Map.{Map, empty}
use flowtile_wm.Base.Text.{codes, trim, eq_ignore_ascii_case}
use flowtile_wm.Base.Words.{sat_add_u32}
use flowtile_wm.Domain.Geometry.{WindowId}
use flowtile_wm.Domain.Modes.{
  BindControlMode, coexistence, ColumnMode, normal, WidthSemantics, default_width_semantics,
}

pub record EdgeInsets : Type 0 where
  pub left : ℕ
  pub top : ℕ
  pub right : ℕ
  pub bottom : ℕ

-- `EdgeInsets::all`.
abbrev pub all_insets : ℕ → EdgeInsets
all_insets value = record { left = value; top = value; right = value; bottom = value }

abbrev pub horizontal : EdgeInsets → ℕ
horizontal insets = sat_add_u32 insets.left insets.right

abbrev pub vertical : EdgeInsets → ℕ
vertical insets = sat_add_u32 insets.top insets.bottom

pub record LayoutSpacing : Type 0 where
  pub outer_padding : EdgeInsets
  pub column_gap : ℕ
  pub window_gap : ℕ
  pub floating_margin : ℕ

abbrev pub default_spacing : LayoutSpacing
default_spacing = record {
  outer_padding = all_insets 16;
  column_gap = 12;
  window_gap = 12;
  floating_margin = 16;
}

pub record ConfigProjection : Type 0 where
  pub config_version : ℕ
  pub live_reload_enabled : Bool
  pub rollback_supported : Bool
  pub source_path : String
  pub bind_control_mode : BindControlMode
  pub strip_scroll_step : ℕ
  pub default_column_mode : ColumnMode
  pub default_column_width : WidthSemantics
  pub layout_spacing : LayoutSpacing
  pub managed_monitor_bindings : List String
  pub active_rule_count : ℕ

abbrev pub default_config : ConfigProjection
default_config = record {
  config_version = 0;
  live_reload_enabled = true;
  rollback_supported = true;
  source_path = "config/flowtile.kdl";
  bind_control_mode = coexistence;
  strip_scroll_step = 240;
  default_column_mode = normal;
  default_column_width = default_width_semantics;
  layout_spacing = default_spacing;
  managed_monitor_bindings = [];
  active_rule_count = 0;
}

manages_binding : List String → Option String → Bool
manages_binding bindings none = false
manages_binding bindings (some binding) =
    let wanted = trim (codes binding) in
    if is_empty wanted
    then false
    else any (λ candidate. eq_ignore_ascii_case (codes candidate) wanted) bindings

unfoldable pub manages_monitor_binding : ConfigProjection → Option String → Bool
unfolding manages_binding
manages_monitor_binding config binding =
    if is_empty config.managed_monitor_bindings
    then true
    else manages_binding config.managed_monitor_bindings binding

pub record CapturePolicy : Type 0 where
  pub window_policy_overrides : Map Bool
  pub workspace_policy_overrides : Map Bool
  pub built_in_capture_exclusions : List String
  pub best_effort_display_affinity_targets : List WindowId

abbrev pub default_capture_policy : CapturePolicy
default_capture_policy = record {
  window_policy_overrides = empty;
  workspace_policy_overrides = empty;
  built_in_capture_exclusions = "task-switcher" ∷ "lock-screen" ∷ [];
  best_effort_display_affinity_targets = [];
}

-- `VERSION_LINE` of crates/domain/src/lib.rs.
abbrev pub version_line_text : String
version_line_text = "v.0.0.23"

pub record DiagnosticsSummary : Type 0 where
  pub last_transition_label : Option String
  pub total_records : ℕ
  pub last_state_version : ℕ
  pub version_line : String

abbrev pub default_diagnostics : DiagnosticsSummary
default_diagnostics = record {
  last_transition_label = none;
  total_records = 0;
  last_state_version = 0;
  version_line = version_line_text;
}
