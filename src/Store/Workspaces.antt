-- ===== src/Store/Workspaces.antt =====
-- Commands on workspaces, in crates/wm-core/src/state_store/workspace.rs.
use flowtile_wm.Base.{
  ℕ, Bool, not, Option, some, List, if◌then◌else◌, ◌==◌, is_some_and, unwrap_or, position, get_or,
  length, swap, retain, insert_at, ok_or,
}
use flowtile_wm.Base.Map.{get, insert, contains_key}
use flowtile_wm.Domain.{
  MonitorId, WorkspaceSetId, WorkspaceId, WmState, WorkspaceSet, FocusOrigin, user_command,
  workspace_set_id_for_monitor, active_workspace_id_for_monitor, normalize_workspace_set,
  edit_workspace, edit_workspace_set, WorkspaceCommandPayload,
}
use flowtile_wm.Store.Methods.{
  Action, unknown_monitor, unknown_workspace, no_active_workspace, pure, reads, asks, choose,
  modify, ◌>>=◌, ◌>>◌, require,
}
use flowtile_wm.Store.Queries.{workspace_focus_target}
use flowtile_wm.Store.Monitors.{command_monitor_id, adjacent_monitor_id, step_index}
use flowtile_wm.Store.Focus.{
  activate_in_set, clear_focus, set_focus_to_window, clamp_scroll_offset,
  reveal_column_in_workspace,
}
use flowtile_wm.Store.Overview.{sync_overview_selection}

-- `workspace_set_id_for_monitor(…).ok_or(…)?` and its like.
abbrev pub require_set_id : MonitorId → Action WorkspaceSetId
require_set_id monitor_id =
    reads (λ s. ok_or (workspace_set_id_for_monitor s monitor_id) (unknown_monitor monitor_id))

abbrev pub require_set : MonitorId → WorkspaceSetId → Action WorkspaceSet
require_set monitor_id set_id =
    reads (λ s. ok_or (get set_id s.workspace_sets) (unknown_monitor monitor_id))

abbrev pub require_active_workspace : MonitorId → Action WorkspaceId
require_active_workspace monitor_id =
    reads
      (λ s. ok_or (active_workspace_id_for_monitor s monitor_id) (no_active_workspace monitor_id))

-- The place of a workspace in the list of its set.
abbrev pub require_position : WorkspaceId → List WorkspaceId → Action ℕ
require_position id ids =
    reads (λ s. ok_or (position (λ other. other == id) ids) (unknown_workspace id))

unfoldable pub without_focus : MonitorId → WorkspaceId → FocusOrigin → WmState → WmState
without_focus monitor_id workspace_id origin s =
    let cleared = clear_focus monitor_id origin s in
    let active = record cleared {
      focus = record cleared.focus {
        active_workspace_by_monitor =
            insert monitor_id workspace_id cleared.focus.active_workspace_by_monitor;
      };
    } in
    activate_in_set (workspace_set_id_for_monitor active monitor_id) workspace_id active

unfoldable pub set_active_workspace_without_focus :
    MonitorId → WorkspaceId → FocusOrigin → Action (Unit {0})
set_active_workspace_without_focus monitor_id workspace_id origin = do
  known ← asks (λ s. contains_key workspace_id s.workspaces)
  require known (unknown_workspace workspace_id)
  modify (without_focus monitor_id workspace_id origin)

unfoldable pub activate_workspace : MonitorId → WorkspaceId → FocusOrigin → Action (Unit {0})
activate_workspace monitor_id workspace_id origin = do
  target ← reads (λ s. workspace_focus_target s workspace_id)
  choose target
      (do
        set_active_workspace_without_focus monitor_id workspace_id origin
        clamp_scroll_offset workspace_id)
      (λ chosen. do
        set_focus_to_window monitor_id workspace_id chosen.0 chosen.1 origin
        choose chosen.1 (clamp_scroll_offset workspace_id)
            (reveal_column_in_workspace workspace_id))
  modify (sync_overview_selection monitor_id)

unfoldable pub handle_focus_workspace : Bool → WorkspaceCommandPayload → Action (Option WorkspaceId)
handle_focus_workspace forward payload = do
  monitor_id ← reads (λ s. command_monitor_id s payload.monitor_id)
  set_id ← require_set_id monitor_id
  modify (normalize_workspace_set set_id)
  set ← require_set monitor_id set_id
  active_id ← require_active_workspace monitor_id
  active_index ← require_position active_id set.ordered_workspace_ids
  let target_index = step_index forward active_index (length set.ordered_workspace_ids)
  let target_id = get_or set.ordered_workspace_ids target_index 0
  if target_id == active_id then pure (some active_id) else do
    activate_workspace monitor_id target_id user_command
    modify (normalize_workspace_set set_id)
    pure (some target_id)

unfoldable pub handle_move_workspace_within_monitor :
    Bool → WorkspaceCommandPayload → Action (Option WorkspaceId)
handle_move_workspace_within_monitor forward payload = do
  monitor_id ← reads (λ s. command_monitor_id s payload.monitor_id)
  set_id ← require_set_id monitor_id
  modify (normalize_workspace_set set_id)
  active_id ← require_active_workspace monitor_id
  set ← require_set monitor_id set_id
  active_index ← require_position active_id set.ordered_workspace_ids
  let target_index = step_index forward active_index (length set.ordered_workspace_ids)
  if target_index == active_index then pure (some active_id) else do
    require_set monitor_id set_id
    modify (
        edit_workspace_set set_id (λ ws. record ws {
          ordered_workspace_ids = swap active_index target_index ws.ordered_workspace_ids;
          active_workspace_id = active_id;
        }))
    modify (normalize_workspace_set set_id)
    modify (sync_overview_selection monitor_id)
    pure (some active_id)

-- The place before the empty tail of a set, or else its end.
abbrev tail_position : WmState → List WorkspaceId → ℕ
tail_position s ids =
    unwrap_or
      (position (λ id. is_some_and (get id s.workspaces) (λ w. w.is_ephemeral_empty_tail)) ids)
      (length ids)

-- The workspace leaves one set and enters the other before its empty tail.
unfoldable pub transfer_workspace :
    MonitorId → WorkspaceSetId → MonitorId → WorkspaceSetId → WorkspaceId → Action (Unit {0})
transfer_workspace source_monitor source_set target_monitor target_set workspace_id = do
  require_set source_monitor source_set
  modify (
      edit_workspace_set source_set (λ set. record set {
        ordered_workspace_ids = retain (λ id. not (id == workspace_id)) set.ordered_workspace_ids;
      }))
  target ← require_set target_monitor target_set
  index ← asks (λ s. tail_position s target.ordered_workspace_ids)
  require_set target_monitor target_set
  modify (
      edit_workspace_set target_set (λ set. record set {
        ordered_workspace_ids = insert_at index workspace_id set.ordered_workspace_ids;
        active_workspace_id = workspace_id;
      }))
  modify (edit_workspace workspace_id (λ w. record w { monitor_id = target_monitor }))

-- The active workspace of one monitor moves to another monitor and is active there.
unfoldable pub move_active_to_monitor : MonitorId → MonitorId → Action (Option WorkspaceId)
move_active_to_monitor source_monitor target_monitor = do
  workspace_id ← require_active_workspace source_monitor
  source_set ← require_set_id source_monitor
  target_set ← require_set_id target_monitor
  modify (normalize_workspace_set source_set)
  modify (normalize_workspace_set target_set)
  transfer_workspace source_monitor source_set target_monitor target_set workspace_id
  modify (normalize_workspace_set source_set)
  modify (normalize_workspace_set target_set)
  activate_workspace target_monitor workspace_id user_command
  modify (sync_overview_selection source_monitor)
  pure (some workspace_id)

unfoldable pub handle_move_workspace_to_adjacent_monitor :
    Bool → WorkspaceCommandPayload → Action (Option WorkspaceId)
handle_move_workspace_to_adjacent_monitor forward payload = do
  source_monitor ← reads (λ s. command_monitor_id s payload.monitor_id)
  target_monitor ←
      asks (λ s. unwrap_or (adjacent_monitor_id s source_monitor forward) source_monitor)
  if target_monitor == source_monitor
      then require_active_workspace source_monitor >>= (λ active_id. pure (some active_id))
      else move_active_to_monitor source_monitor target_monitor
