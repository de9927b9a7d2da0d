-- ===== src/Domain/Entities.antt =====
-- The entities of crates/domain/src/model.rs: monitors, workspaces, columns and windows.
use flowtile_wm.Base.{ℕ, ℤ, pos, Bool, true, false, Option, none, String, List, [], first}
use flowtile_wm.Base.Map.{Map, empty}
use flowtile_wm.Domain.Geometry.{
  MonitorId, WorkspaceSetId, WorkspaceId, ColumnId, WindowId, Size, Rect,
}
use flowtile_wm.Domain.Modes.{
  TopologyRole, StripLayoutMode, columns, ColumnMode, WidthSemantics, ResizeEdge, MaximizedState,
  restored, WindowClassification, WindowLayer, FocusOrigin, reducer_default,
}

pub record Monitor : Type 0 where
  pub id : MonitorId
  pub platform_binding : Option String
  pub work_area_rect : Rect
  pub dpi : ℕ
  pub topology_role : TopologyRole
  pub workspace_set_id : WorkspaceSetId
  pub is_primary_hint : Bool

pub record WorkspaceSet : Type 0 where
  pub id : WorkspaceSetId
  pub monitor_id : MonitorId
  pub ordered_workspace_ids : List WorkspaceId
  pub active_workspace_id : WorkspaceId
  pub last_non_empty_workspace_id : Option WorkspaceId

pub record ScrollingStrip : Type 0 where
  pub ordered_column_ids : List ColumnId
  pub scroll_offset : ℤ
  pub visible_region : Rect
  pub layout_mode : StripLayoutMode

pub record FloatingLayer : Type 0 where
  pub workspace_id : WorkspaceId
  pub ordered_window_ids : List WindowId
  pub z_hints : Map ℕ

pub record Workspace : Type 0 where
  pub id : WorkspaceId
  pub monitor_id : MonitorId
  pub vertical_index : ℕ
  pub remembered_focused_window_id : Option WindowId
  pub remembered_focused_column_id : Option ColumnId
  pub strip : ScrollingStrip
  pub floating_layer : FloatingLayer
  pub name : Option String
  pub is_ephemeral_empty_tail : Bool

-- `Workspace::empty`.
abbrev pub empty_workspace : WorkspaceId → MonitorId → ℕ → Rect → Workspace
empty_workspace id monitor_id vertical_index visible = record {
  id = id;
  monitor_id = monitor_id;
  vertical_index = vertical_index;
  remembered_focused_window_id = none;
  remembered_focused_column_id = none;
  strip = record {
    ordered_column_ids = [];
    scroll_offset = pos 0;
    visible_region = visible;
    layout_mode = columns;
  };
  floating_layer = record { workspace_id = id; ordered_window_ids = []; z_hints = empty };
  name = none;
  is_ephemeral_empty_tail = true;
}

pub record Column : Type 0 where
  pub id : ColumnId
  pub mode : ColumnMode
  pub ordered_window_ids : List WindowId
  pub active_window_id : Option WindowId
  pub width_semantics : WidthSemantics
  pub maximized_state : MaximizedState
  pub tab_selection : Option WindowId

-- `Column::new`.
abbrev pub new_column : ColumnId → ColumnMode → WidthSemantics → List WindowId → Column
new_column id mode width_semantics ordered_window_ids = record {
  id = id;
  mode = mode;
  ordered_window_ids = ordered_window_ids;
  active_window_id = first ordered_window_ids;
  width_semantics = width_semantics;
  maximized_state = restored;
  tab_selection = first ordered_window_ids;
}

pub record RestoreTarget : Type 0 where
  pub workspace_id : WorkspaceId
  pub column_id : Option ColumnId
  pub column_index : Option ℕ
  pub layer : WindowLayer

pub record WindowNode : Type 0 where
  pub id : WindowId
  pub current_hwnd_binding : Option ℕ
  pub classification : WindowClassification
  pub layer : WindowLayer
  pub workspace_id : WorkspaceId
  pub column_id : Option ColumnId
  pub is_managed : Bool
  pub is_floating : Bool
  pub is_fullscreen : Bool
  pub restore_target : Option RestoreTarget
  pub last_known_rect : Rect
  pub desired_size : Size

pub record FocusState : Type 0 where
  pub focused_monitor_id : Option MonitorId
  pub active_workspace_by_monitor : Map WorkspaceId
  pub focused_window_id : Option WindowId
  pub focused_column_id : Option ColumnId
  pub focus_origin : FocusOrigin

abbrev pub default_focus : FocusState
default_focus = record {
  focused_monitor_id = none;
  active_workspace_by_monitor = empty;
  focused_window_id = none;
  focused_column_id = none;
  focus_origin = reducer_default;
}

pub record OverviewState : Type 0 where
  pub is_open : Bool
  pub monitor_id : Option MonitorId
  pub selection : Option WorkspaceId
  pub drag_payload : Option String
  pub projection_version : ℕ

abbrev pub default_overview : OverviewState
default_overview = record {
  is_open = false;
  monitor_id = none;
  selection = none;
  drag_payload = none;
  projection_version = 0;
}

pub record WidthResizeSession : Type 0 where
  pub workspace_id : WorkspaceId
  pub column_id : ColumnId
  pub window_id : WindowId
  pub anchor_edge : ResizeEdge
  pub anchor_x : ℤ
  pub current_pointer_x : ℤ
  pub initial_column_rect : Rect
  pub initial_width : ℕ
  pub target_width : ℕ
  pub clamped_preview_rect : Rect

pub record LayoutState : Type 0 where
  pub columns : Map Column
  pub width_resize_session : Option WidthResizeSession
