-- ===== src/Store/Overview.antt =====
-- crates/wm-core/src/state_store/overview.rs.
use flowtile_wm.Base.{
  Bool, true, false, not, ◌||◌, ◌&&◌, Option, none, some, if◌then◌else◌, eq_option, is_some, ok_or,
}
use flowtile_wm.Base.Words.{sat_add_u64}
use flowtile_wm.Domain.{
  MonitorId, WorkspaceId, WmState, OverviewState, active_workspace_id_for_monitor,
  OverviewCommandPayload,
}
use flowtile_wm.Store.Methods.{Action, no_active_workspace, pure, reads, asks, modify, ◌>>=◌, ◌>>◌}
use flowtile_wm.Store.Monitors.{command_monitor_id}

abbrev shows_monitor : WmState → MonitorId → Bool
shows_monitor s monitor_id = s.overview.is_open && eq_option s.overview.monitor_id (some monitor_id)

unfoldable pub sync_overview_selection : MonitorId → WmState → WmState
sync_overview_selection monitor_id s =
    if shows_monitor s monitor_id
    then record s {
      overview = record s.overview {
        selection = active_workspace_id_for_monitor s monitor_id;
        projection_version = sat_add_u64 s.overview.projection_version 1;
      };
    }
    else s

-- The overview opened on a monitor and a workspace.
unfoldable pub opened : MonitorId → WorkspaceId → OverviewState → OverviewState
opened monitor_id workspace_id overview =
    let changed =
      not overview.is_open
      || not (eq_option overview.monitor_id (some monitor_id))
      || not (eq_option overview.selection (some workspace_id))
      || is_some overview.drag_payload in
    record {
      is_open = true;
      monitor_id = some monitor_id;
      selection = some workspace_id;
      drag_payload = none;
      projection_version =
          if changed
          then sat_add_u64 overview.projection_version 1
          else overview.projection_version;
    }

unfoldable pub open_overview_for_monitor : MonitorId → Action (Unit {0})
open_overview_for_monitor monitor_id = do
  workspace_id ←
      reads
        (λ s. ok_or (active_workspace_id_for_monitor s monitor_id) (no_active_workspace monitor_id))
  modify (λ s. record s { overview = opened monitor_id workspace_id s.overview })

unfoldable pub closed : OverviewState → OverviewState
closed overview =
    let changed =
      overview.is_open
      || is_some overview.monitor_id
      || is_some overview.selection
      || is_some overview.drag_payload in
    record {
      is_open = false;
      monitor_id = none;
      selection = none;
      drag_payload = none;
      projection_version =
          if changed
          then sat_add_u64 overview.projection_version 1
          else overview.projection_version;
    }

unfoldable pub close_overview : WmState → WmState
close_overview s = record s { overview = closed s.overview }

unfoldable pub handle_open_overview : OverviewCommandPayload → Action (Option WorkspaceId)
handle_open_overview payload = do
  monitor_id ← reads (λ s. command_monitor_id s payload.monitor_id)
  open_overview_for_monitor monitor_id
  pure none

unfoldable pub handle_close_overview : OverviewCommandPayload → Action (Option WorkspaceId)
handle_close_overview payload = do modify close_overview; pure none

unfoldable pub handle_toggle_overview : OverviewCommandPayload → Action (Option WorkspaceId)
handle_toggle_overview payload = do
  monitor_id ← reads (λ s. command_monitor_id s payload.monitor_id)
  shown ← asks (λ s. shows_monitor s monitor_id)
  if shown then modify close_overview else open_overview_for_monitor monitor_id
  pure none
