-- ===== src/Domain/Payloads.antt =====
-- The payloads of crates/domain/src/events.rs.
use flowtile_wm.Base.{ℕ, ℤ, Bool, Option, none, String, List}
use flowtile_wm.Domain.Geometry.{
  MonitorId, WorkspaceId, ColumnId, WindowId, CorrelationId, Rect, Size,
}
use flowtile_wm.Domain.Modes.{
  ColumnMode, normal, WidthSemantics, default_width_semantics, ResizeEdge, WindowClassification,
  WindowLayer, FocusOrigin,
}
use flowtile_wm.Domain.Config.{ConfigProjection}
use flowtile_wm.Domain.Events.{EventCategory, EventSource, DomainEventName}

pub data FocusBehavior : Type 0 where
  follow_new_window preserve_current_focus : FocusBehavior

pub data WindowPlacement : Type 0 where
  append_to_focused_column : WindowPlacement
  new_column_after_focus : ColumnMode → WidthSemantics → WindowPlacement
  new_column_before_focus : ColumnMode → WidthSemantics → WindowPlacement
  append_to_workspace_end : ColumnMode → WidthSemantics → WindowPlacement

abbrev pub default_placement : WindowPlacement
default_placement = new_column_after_focus normal default_width_semantics

pub data NavigationScope : Type 0 where
  workspace_strip column_tabs : NavigationScope

pub record WindowDiscoveredPayload : Type 0 where
  pub monitor_id : MonitorId
  pub hwnd : ℕ
  pub classification : WindowClassification
  pub desired_size : Size
  pub last_known_rect : Rect
  pub placement : WindowPlacement
  pub focus_behavior : FocusBehavior
  pub layer : WindowLayer
  pub managed : Bool

pub record WindowDestroyedPayload : Type 0 where
  pub window_id : WindowId

pub record WindowFocusObservedPayload : Type 0 where
  pub monitor_id : MonitorId
  pub window_id : WindowId
  pub focus_origin : FocusOrigin

pub record FocusCommandPayload : Type 0 where
  pub scope : NavigationScope

pub record StripScrollPayload : Type 0 where
  pub scope : NavigationScope
  pub step : ℕ

pub record WindowCommandPayload : Type 0 where
  pub window_id : Option WindowId

pub record WorkspaceCommandPayload : Type 0 where
  pub monitor_id : Option MonitorId

pub record MoveColumnToWorkspaceTargetPayload : Type 0 where
  pub source_column_id : ColumnId
  pub target_workspace_id : WorkspaceId
  pub insert_after_column_id : Option ColumnId

pub record OverviewCommandPayload : Type 0 where
  pub monitor_id : Option MonitorId

pub record ColumnWidthResizePayload : Type 0 where
  pub edge : ResizeEdge
  pub pointer_x : ℤ

pub record ColumnWidthPointerPayload : Type 0 where
  pub pointer_x : ℤ

pub record ConfigReloadRequestedPayload : Type 0 where
  pub source : EventSource
  pub path : Option String

pub record ConfigReloadSucceededPayload : Type 0 where
  pub config_generation : ℕ
  pub changed_sections : List String
  pub projection : ConfigProjection

pub record ConfigReloadFailedPayload : Type 0 where
  pub error_code : String
  pub human_message : String

pub record RulesUpdatedPayload : Type 0 where
  pub rule_set_version : ℕ
  pub changed_rules : List String
  pub active_rule_count : ℕ

-- The constructors are those of `DomainEventPayload`, without the `cmd_` of the commands.
pub data DomainEventPayload : Type 0 where
  discovered : WindowDiscoveredPayload → DomainEventPayload
  destroyed : WindowDestroyedPayload → DomainEventPayload
  focus_observed : WindowFocusObservedPayload → DomainEventPayload
  focus_next focus_prev : FocusCommandPayload → DomainEventPayload
  focus_workspace_up focus_workspace_down : WorkspaceCommandPayload → DomainEventPayload
  scroll_strip_left scroll_strip_right : StripScrollPayload → DomainEventPayload
  move_workspace_up move_workspace_down : WorkspaceCommandPayload → DomainEventPayload
  move_workspace_to_monitor_next move_workspace_to_monitor_previous :
      WorkspaceCommandPayload → DomainEventPayload
  move_column_to_workspace_up move_column_to_workspace_down :
      WorkspaceCommandPayload → DomainEventPayload
  move_column_to_workspace_target : MoveColumnToWorkspaceTargetPayload → DomainEventPayload
  toggle_floating toggle_tabbed toggle_maximized toggle_fullscreen :
      WindowCommandPayload → DomainEventPayload
  open_overview close_overview toggle_overview : OverviewCommandPayload → DomainEventPayload
  begin_column_width_resize : ColumnWidthResizePayload → DomainEventPayload
  update_column_width_preview commit_column_width : ColumnWidthPointerPayload → DomainEventPayload
  cancel_column_width_resize cycle_column_width : DomainEventPayload
  config_reload_requested : ConfigReloadRequestedPayload → DomainEventPayload
  config_reload_succeeded : ConfigReloadSucceededPayload → DomainEventPayload
  config_reload_failed : ConfigReloadFailedPayload → DomainEventPayload
  rules_updated : RulesUpdatedPayload → DomainEventPayload
  reconcile_requested full_scan_requested : DomainEventPayload

pub record DomainEvent : Type 0 where
  pub event_id : DomainEventName
  pub event_kind : EventCategory
  pub timestamp : ℕ
  pub source : EventSource
  pub correlation_id : CorrelationId
  pub payload : DomainEventPayload
  pub state_version_at_enqueue : Option ℕ

-- `DomainEvent::new`.
abbrev pub new_event :
    DomainEventName → EventCategory → EventSource → CorrelationId → DomainEventPayload → DomainEvent
new_event event_id event_kind source correlation_id payload = record {
  event_id = event_id;
  event_kind = event_kind;
  timestamp = 0;
  source = source;
  correlation_id = correlation_id;
  payload = payload;
  state_version_at_enqueue = none;
}
