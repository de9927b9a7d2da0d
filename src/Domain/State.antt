-- ===== src/Domain/State.antt =====
-- `RuntimeState` and `WmState` of crates/domain/src/model.rs: the state, the allocation of
-- identifiers and the queries. A method that mutates returns the new state.
use flowtile_wm.Base.{
  ℕ, ◌+◌, ℤ, pos, Bool, true, false, ◌&&◌, ◌||◌, Option, none, some, String, List, [], ◌∷◌,
  if◌then◌else◌, ltb, ltb_ℤ, eqb_ℤ, map_some, and_then, or_else, unwrap_or, is_empty, all,
}
use flowtile_wm.Base.Map.{Map, empty, get, keys, adjust}
use flowtile_wm.Base.Words.{wrap_u64, i32_max, u64_max}
use flowtile_wm.Domain.Geometry.{MonitorId, WorkspaceSetId, WorkspaceId, ColumnId, WindowId}
use flowtile_wm.Domain.Modes.{RuntimeMode}
use flowtile_wm.Domain.Entities.{
  Monitor, WorkspaceSet, Workspace, Column, WindowNode, FocusState, default_focus, OverviewState,
  default_overview, LayoutState,
}
use flowtile_wm.Domain.Config.{
  ConfigProjection, default_config, CapturePolicy, default_capture_policy, DiagnosticsSummary,
  default_diagnostics,
}

pub record RuntimeState : Type 0 where
  pub state_version : ℕ
  pub boot_mode : RuntimeMode
  pub last_reconcile_at : Option ℕ
  pub last_full_scan_at : Option ℕ
  pub degraded_flags : List String
  pub next_monitor_id : ℕ
  pub next_workspace_set_id : ℕ
  pub next_workspace_id : ℕ
  pub next_column_id : ℕ
  pub next_window_id : ℕ

abbrev pub new_runtime : RuntimeMode → RuntimeState
new_runtime boot_mode = record {
  state_version = 0;
  boot_mode = boot_mode;
  last_reconcile_at = none;
  last_full_scan_at = none;
  degraded_flags = [];
  next_monitor_id = 1;
  next_workspace_set_id = 1;
  next_workspace_id = 1;
  next_column_id = 1;
  next_window_id = 1;
}

pub record WmState : Type 0 where
  pub runtime : RuntimeState
  pub monitors : Map Monitor
  pub workspace_sets : Map WorkspaceSet
  pub workspaces : Map Workspace
  pub windows : Map WindowNode
  pub focus : FocusState
  pub layout : LayoutState
  pub overview : OverviewState
  pub capture_policy : CapturePolicy
  pub config_projection : ConfigProjection
  pub diagnostics_summary : DiagnosticsSummary

-- `WmState::new`.
unfoldable pub new_state : RuntimeMode → WmState
new_state mode = record {
  runtime = new_runtime mode;
  monitors = empty;
  workspace_sets = empty;
  workspaces = empty;
  windows = empty;
  focus = default_focus;
  layout = record { columns = empty; width_resize_session = none };
  overview = default_overview;
  capture_policy = default_capture_policy;
  config_projection = default_config;
  diagnostics_summary = default_diagnostics;
}

-- `StateVersion::next` and `bump_state_version`.
unfoldable pub bump_state_version : WmState → WmState
bump_state_version s = record s {
  runtime = record s.runtime { state_version = wrap_u64 (s.runtime.state_version + 1) };
}

unfoldable pub allocate_monitor_id : WmState → MonitorId × WmState
allocate_monitor_id s =
    let id = s.runtime.next_monitor_id in
    (id, record s { runtime = record s.runtime { next_monitor_id = wrap_u64 (id + 1) } })

unfoldable pub allocate_workspace_set_id : WmState → WorkspaceSetId × WmState
allocate_workspace_set_id s =
    let id = s.runtime.next_workspace_set_id in
    (id, record s { runtime = record s.runtime { next_workspace_set_id = wrap_u64 (id + 1) } })

unfoldable pub allocate_workspace_id : WmState → WorkspaceId × WmState
allocate_workspace_id s =
    let id = s.runtime.next_workspace_id in
    (id, record s { runtime = record s.runtime { next_workspace_id = wrap_u64 (id + 1) } })

unfoldable pub allocate_column_id : WmState → ColumnId × WmState
allocate_column_id s =
    let id = s.runtime.next_column_id in
    (id, record s { runtime = record s.runtime { next_column_id = wrap_u64 (id + 1) } })

unfoldable pub allocate_window_id : WmState → WindowId × WmState
allocate_window_id s =
    let id = s.runtime.next_window_id in
    (id, record s { runtime = record s.runtime { next_window_id = wrap_u64 (id + 1) } })

-- `if let Some(x) = self.workspaces.get_mut(&id) { … }`, and so for the other maps.
abbrev pub edit_workspace : WorkspaceId → (Workspace → Workspace) → WmState → WmState
edit_workspace id f s = record s { workspaces = adjust id f s.workspaces }

abbrev pub edit_workspace_set : WorkspaceSetId → (WorkspaceSet → WorkspaceSet) → WmState → WmState
edit_workspace_set id f s = record s { workspace_sets = adjust id f s.workspace_sets }

abbrev pub edit_column : ColumnId → (Column → Column) → WmState → WmState
edit_column id f s = record s {
  layout = record s.layout { columns = adjust id f s.layout.columns };
}

abbrev pub edit_window : WindowId → (WindowNode → WindowNode) → WmState → WmState
edit_window id f s = record s { windows = adjust id f s.windows }

unfoldable pub workspace_set_id_for_monitor : WmState → MonitorId → Option WorkspaceSetId
workspace_set_id_for_monitor s monitor_id =
    map_some (get monitor_id s.monitors) (λ monitor. monitor.workspace_set_id)

unfoldable pub active_workspace_id_for_monitor : WmState → MonitorId → Option WorkspaceId
active_workspace_id_for_monitor s monitor_id =
    or_else (get monitor_id s.focus.active_workspace_by_monitor) (
      and_then (workspace_set_id_for_monitor s monitor_id)
        λ set_id. map_some (get set_id s.workspace_sets) (λ set. set.active_workspace_id))

-- Whether all columns of a strip are missing or without windows.
abbrev strip_is_empty : Map Column → List ColumnId → Bool
strip_is_empty columns =
    all λ id.
      unwrap_or (map_some (get id columns) (λ column. is_empty column.ordered_window_ids)) true

abbrev pub workspace_is_empty : Map Column → Option Workspace → Bool
workspace_is_empty columns none = true
workspace_is_empty columns (some workspace) =
    if is_empty workspace.floating_layer.ordered_window_ids
    then strip_is_empty columns workspace.strip.ordered_column_ids
    else false

unfoldable pub is_workspace_empty : WmState → WorkspaceId → Bool
is_workspace_empty s id = workspace_is_empty s.layout.columns (get id s.workspaces)

-- The key that monitors are sorted by: left to right, then top to bottom, then by identifier.
pub record NavigationKey : Type 0 where
  pub x : ℤ
  pub y : ℤ
  pub id : ℕ

unfoldable pub navigation_key : WmState → MonitorId → NavigationKey
navigation_key s id = elim (get id s.monitors) [
  | none ↦ record { x = pos i32_max; y = pos i32_max; id = u64_max }
  | some monitor ↦ record { x = monitor.work_area_rect.x; y = monitor.work_area_rect.y; id = id }
]

abbrev pub key_before : NavigationKey → NavigationKey → Bool
key_before a b =
    ltb_ℤ a.x b.x || (eqb_ℤ a.x b.x && (ltb_ℤ a.y b.y || (eqb_ℤ a.y b.y && ltb a.id b.id)))

-- `sort_by_key` is stable: an element goes before the later ones whose key is not smaller.
unfoldable pub insert_by_key : WmState → MonitorId → List MonitorId → List MonitorId
insert_by_key s id [] = id ∷ []
insert_by_key s id (other ∷ rest) =
    let later = other ∷ insert_by_key s id rest in
    if key_before (navigation_key s other) (navigation_key s id) then later else id ∷ other ∷ rest

unfoldable pub sort_by_key : WmState → List MonitorId → List MonitorId
sort_by_key s [] = []
sort_by_key s (id ∷ ids) = insert_by_key s id (sort_by_key s ids)

unfoldable pub monitor_ids_in_navigation_order : WmState → List MonitorId
monitor_ids_in_navigation_order s = sort_by_key s (keys s.monitors)
