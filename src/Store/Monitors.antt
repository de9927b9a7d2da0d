-- ===== src/Store/Monitors.antt =====
-- The choice of a monitor, workspace or window for a command, in
-- crates/wm-core/src/state_store/workspace.rs.
use flowtile_wm.Base.{
  ℕ, ◌+◌, ◌-◌, min, Bool, not, Option, none, some, List, if◌then◌else◌, ◌==◌, is_some_and, keep_if,
  and_then, or_else, map_some, position, get_elem?, first, length, is_empty, retain, ok, err, ok_or,
}
use flowtile_wm.Base.Map.{get, keys, values, contains_key}
use flowtile_wm.Domain.{
  MonitorId, WorkspaceId, WindowId, WmState, manages_monitor_binding,
  monitor_ids_in_navigation_order, active_workspace_id_for_monitor,
}
use flowtile_wm.Store.Methods.{unknown_monitor, invalid_event, Outcome}
use flowtile_wm.Store.Reading.{◌>>=◌}

unfoldable pub has_explicit_managed_monitor_set : WmState → Bool
has_explicit_managed_monitor_set s = not (is_empty s.config_projection.managed_monitor_bindings)

unfoldable pub monitor_is_managed : WmState → MonitorId → Bool
monitor_is_managed s id =
    is_some_and (get id s.monitors)
      (λ monitor. manages_monitor_binding s.config_projection monitor.platform_binding)

unfoldable pub managed_monitor_ids_in_navigation_order : WmState → List MonitorId
managed_monitor_ids_in_navigation_order s =
    retain (monitor_is_managed s) (monitor_ids_in_navigation_order s)

unfoldable pub first_managed_monitor_id : WmState → Option MonitorId
first_managed_monitor_id s = first (managed_monitor_ids_in_navigation_order s)

-- The monitor that a command without a monitor is for.
unfoldable pub default_command_monitor : WmState → Outcome MonitorId
default_command_monitor s =
    if has_explicit_managed_monitor_set s
    then ok_or
        (or_else (keep_if s.focus.focused_monitor_id (monitor_is_managed s))
          (first_managed_monitor_id s))
        (invalid_event "workspace command requires at least one managed monitor")
    else ok_or (or_else s.focus.focused_monitor_id (first (keys s.monitors)))
        (invalid_event "workspace command requires a monitor context")

unfoldable pub command_monitor_id : WmState → Option MonitorId → Outcome MonitorId
command_monitor_id s requested = do
  monitor_id ← elim requested [ none ↦ default_command_monitor s | some id ↦ ok id ]
  if contains_key monitor_id s.monitors then ok monitor_id else err (unknown_monitor monitor_id)

-- One step along a list of a given length, which stops at its ends.
abbrev pub step_index : Bool → ℕ → ℕ → ℕ
step_index forward index count = if forward then min (index + 1) (count - 1) else index - 1

unfoldable pub adjacent_monitor_id : WmState → MonitorId → Bool → Option MonitorId
adjacent_monitor_id s source forward =
    let ids =
      if has_explicit_managed_monitor_set s
      then managed_monitor_ids_in_navigation_order s
      else monitor_ids_in_navigation_order s in
    and_then (position (λ id. id == source) ids)
      λ index. get_elem? ids (step_index forward index (length ids))

abbrev focused_managed_window : WmState → Option WorkspaceId
focused_managed_window s = and_then s.focus.focused_window_id λ id.
    and_then (get id s.windows)
      λ window. if window.is_managed then some window.workspace_id else none

abbrev managed_monitor_workspace : WmState → Option WorkspaceId
managed_monitor_workspace s =
    if has_explicit_managed_monitor_set s
    then or_else
        (and_then (keep_if s.focus.focused_monitor_id (monitor_is_managed s))
          (active_workspace_id_for_monitor s))
        (and_then (first_managed_monitor_id s) (active_workspace_id_for_monitor s))
    else none

unfoldable pub active_workspace_id_for_commands : WmState → Outcome WorkspaceId
active_workspace_id_for_commands s =
    ok_or
      (or_else (focused_managed_window s) (
        or_else (managed_monitor_workspace s) (
          or_else (and_then s.focus.focused_monitor_id (active_workspace_id_for_monitor s))
            (map_some (first (values s.workspace_sets)) (λ set. set.active_workspace_id)))))
      (invalid_event "no active workspace is available for command handling")

unfoldable pub command_window_id : WmState → Option WindowId → Outcome WindowId
command_window_id s requested =
    ok_or (or_else requested s.focus.focused_window_id)
      (invalid_event "command requires a target window")
