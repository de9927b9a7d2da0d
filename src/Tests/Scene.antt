-- ===== src/Tests/Scene.antt =====
-- Small states and events: one monitor, as in crates/wm-core/src/tests.rs, with a workspace that
-- has one column.
use flowtile_wm.Base.{pos, true, false, none, some, [], ◌∷◌}
use flowtile_wm.Domain.{
  WmState, wm_only, new_state, add_monitor, Rect, application, tiled, DomainEvent, Monitor,
  WorkspaceSet, Workspace, DomainEventName, EventCategory, EventSource, new_event, destroyed,
  scroll_strip_right, workspace_strip, empty_workspace, Column, new_column, normal, fixed,
  WindowNode, primary,
}

abbrev pub screen : Rect
screen = record { x = pos 0; y = pos 0; width = 1200; height = 800 }

abbrev pub start : WmState
start = (add_monitor screen 96 true (new_state wm_only)).1

abbrev pub monitor : Monitor
monitor = record {
  id = 1;
  platform_binding = none;
  work_area_rect = screen;
  dpi = 96;
  topology_role = primary;
  workspace_set_id = 1;
  is_primary_hint = true;
}

abbrev pub workspace_set : WorkspaceSet
workspace_set = record {
  id = 1;
  monitor_id = 1;
  ordered_workspace_ids = 1 ∷ [];
  active_workspace_id = 1;
  last_non_empty_workspace_id = none;
}

abbrev pub column : Column
column = new_column 1 normal (fixed 1500) (1 ∷ 2 ∷ [])

abbrev pub workspace : Workspace
workspace = record (empty_workspace 1 1 0 screen) {
  strip = record (empty_workspace 1 1 0 screen).strip { ordered_column_ids = 1 ∷ [] };
}

-- One monitor, one workspace and one column that is wider than the screen.
abbrev pub scene : WmState
scene = record (new_state wm_only) {
  monitors = (1, monitor) ∷ [];
  workspace_sets = (1, workspace_set) ∷ [];
  workspaces = (1, workspace) ∷ [];
  layout = record { columns = (1, column) ∷ []; width_resize_session = none };
}

abbrev pub window : WindowNode
window = record {
  id = 1;
  current_hwnd_binding = some 10;
  classification = application;
  layer = tiled;
  workspace_id = 1;
  column_id = some 1;
  is_managed = true;
  is_floating = false;
  is_fullscreen = false;
  restore_target = none;
  last_known_rect = screen;
  desired_size = record { width = 400; height = 300 };
}

abbrev pub scroll_event : DomainEvent
scroll_event =
    new_event DomainEventName.cmd_scroll_strip_right EventCategory.user_input_derived
      EventSource.input_command 7
      (scroll_strip_right (record { scope = workspace_strip; step = 100 }))

-- The window 9 is gone, of which the scene has none.
abbrev pub destroy_event : DomainEvent
destroy_event =
    new_event DomainEventName.window_destroyed EventCategory.platform_derived
      EventSource.windows_adapter 8 (destroyed (record { window_id = 9 }))

-- The scene with the two windows of its column.
abbrev pub laid_out : WmState
laid_out = record scene { windows = (1, window) ∷ (2, record window { id = 2 }) ∷ [] }
