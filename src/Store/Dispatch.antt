-- ===== src/Store/Dispatch.antt =====
-- `StateStore::new`, `dispatch` and `apply_event` of crates/wm-core/src/state_store.rs.
use flowtile_wm.Base.{ℕ, ◌+◌, true, false, Option, none, some, List, [], ◌∷◌, length, map_err}
use flowtile_wm.Base.Words.{wrap_u64}
use flowtile_wm.Domain.{
  WorkspaceId, WmState, bump_state_version, DomainEvent, event_name_as_str,
  ConfigReloadSucceededPayload, RulesUpdatedPayload, DomainEventPayload, discovered, destroyed,
  focus_observed, focus_next, focus_prev, focus_workspace_up, focus_workspace_down,
  scroll_strip_left, scroll_strip_right, move_workspace_up, move_workspace_down,
  move_workspace_to_monitor_next, move_workspace_to_monitor_previous, move_column_to_workspace_up,
  move_column_to_workspace_down, move_column_to_workspace_target, toggle_floating,
  toggle_tabbed as toggle_tabbed_command, toggle_maximized as toggle_maximized_command,
  toggle_fullscreen, open_overview, close_overview as close_overview_command, toggle_overview,
  begin_column_width_resize, update_column_width_preview, commit_column_width,
  cancel_column_width_resize, cycle_column_width, config_reload_requested, config_reload_succeeded,
  config_reload_failed, rules_updated, reconcile_requested, full_scan_requested,
}
use flowtile_wm.Layout.{WorkspaceLayoutProjection, recompute_workspace}
use flowtile_wm.Store.Methods.{
  Action, layout_failed, pure, reads, asks, choose, modify, ◌>>=◌, ◌>>◌,
}
use flowtile_wm.Store.Diagnostics.{DiagnosticRecord, transition_applied, layout_recomputed}
use flowtile_wm.Store.Navigation.{handle_focus_navigation}
use flowtile_wm.Store.Discovery.{
  handle_window_discovered, handle_window_destroyed, handle_window_focus_observed,
}
use flowtile_wm.Store.Workspaces.{
  handle_focus_workspace, handle_move_workspace_within_monitor,
  handle_move_workspace_to_adjacent_monitor,
}
use flowtile_wm.Store.Moves.{
  handle_move_column_to_workspace, handle_move_column_to_workspace_target,
}
use flowtile_wm.Store.Modes.{
  backwards, forwards, handle_strip_scroll, handle_toggle_floating, handle_toggle_tabbed,
  handle_toggle_maximized, handle_toggle_fullscreen,
}
use flowtile_wm.Store.Overview.{handle_open_overview, handle_close_overview, handle_toggle_overview}
use flowtile_wm.Store.WidthCommands.{
  handle_begin_column_width_resize, handle_update_column_width_preview, handle_commit_column_width,
  handle_cancel_column_width_resize, handle_cycle_column_width,
}

unfoldable pub handle_config_reload_succeeded :
    ConfigReloadSucceededPayload → Action (Option WorkspaceId)
handle_config_reload_succeeded payload = do
  modify (λ s. record s { config_projection = payload.projection })
  pure none

unfoldable pub handle_rules_updated : RulesUpdatedPayload → Action (Option WorkspaceId)
handle_rules_updated payload = do
  modify (λ s. record s {
    config_projection = record s.config_projection {
      active_rule_count = payload.active_rule_count;
    };
  })
  pure none

unfoldable pub apply_event : DomainEventPayload → Action (Option WorkspaceId)
apply_event (discovered payload) = handle_window_discovered payload
apply_event (destroyed payload) = handle_window_destroyed payload
apply_event (focus_observed payload) = handle_window_focus_observed payload
apply_event (focus_next payload) = handle_focus_navigation true payload
apply_event (focus_prev payload) = handle_focus_navigation false payload
apply_event (focus_workspace_up payload) = handle_focus_workspace false payload
apply_event (focus_workspace_down payload) = handle_focus_workspace true payload
apply_event (scroll_strip_left payload) = handle_strip_scroll backwards payload
apply_event (scroll_strip_right payload) = handle_strip_scroll forwards payload
apply_event (move_workspace_up payload) = handle_move_workspace_within_monitor false payload
apply_event (move_workspace_down payload) = handle_move_workspace_within_monitor true payload
apply_event (move_workspace_to_monitor_next payload) =
    handle_move_workspace_to_adjacent_monitor true payload
apply_event (move_workspace_to_monitor_previous payload) =
    handle_move_workspace_to_adjacent_monitor false payload
apply_event (move_column_to_workspace_up payload) = handle_move_column_to_workspace false payload
apply_event (move_column_to_workspace_down payload) = handle_move_column_to_workspace true payload
apply_event (move_column_to_workspace_target payload) =
    handle_move_column_to_workspace_target payload
apply_event (toggle_floating payload) = handle_toggle_floating payload
apply_event (toggle_tabbed_command payload) = handle_toggle_tabbed payload
apply_event (toggle_maximized_command payload) = handle_toggle_maximized payload
apply_event (toggle_fullscreen payload) = handle_toggle_fullscreen payload
apply_event (open_overview payload) = handle_open_overview payload
apply_event (close_overview_command payload) = handle_close_overview payload
apply_event (toggle_overview payload) = handle_toggle_overview payload
apply_event (begin_column_width_resize payload) = handle_begin_column_width_resize payload
apply_event (update_column_width_preview payload) = handle_update_column_width_preview payload
apply_event (commit_column_width payload) = handle_commit_column_width payload
apply_event cancel_column_width_resize = handle_cancel_column_width_resize
apply_event cycle_column_width = handle_cycle_column_width
apply_event (config_reload_requested payload) = pure none
apply_event (config_reload_succeeded payload) = handle_config_reload_succeeded payload
apply_event (config_reload_failed payload) = pure none
apply_event (rules_updated payload) = handle_rules_updated payload
apply_event reconcile_requested = pure none
apply_event full_scan_requested = pure none

-- `TransitionResult` of crates/wm-core/src/lib.rs.
pub record TransitionResult : Type 0 where
  pub state_version : ℕ
  pub affected_workspace_id : Option WorkspaceId
  pub layout_projection : Option WorkspaceLayoutProjection
  pub diagnostics : List DiagnosticRecord

-- The layout of the workspace that the event affected, if it affected one.
unfoldable pub affected_layout : Option WorkspaceId → Action (Option WorkspaceLayoutProjection)
affected_layout affected = choose affected (pure none) λ workspace_id. do
  projection ← reads (λ s. map_err layout_failed (recompute_workspace s workspace_id))
  pure (some projection)

-- The diagnostics of one transition: one record, and one more for a layout.
unfoldable pub transition_records :
    DomainEvent → ℕ → Option WorkspaceLayoutProjection → List DiagnosticRecord
transition_records event version none =
    transition_applied version event.correlation_id (event_name_as_str event.event_id) ∷ []
transition_records event version (some projection) =
    transition_applied version event.correlation_id (event_name_as_str event.event_id)
    ∷ layout_recomputed version event.correlation_id projection.workspace_id
        (length projection.window_geometries)
    ∷ []

unfoldable pub summarize : DomainEvent → ℕ → ℕ → WmState → WmState
summarize event version count s = record s {
  diagnostics_summary = record s.diagnostics_summary {
    total_records = wrap_u64 (s.diagnostics_summary.total_records + count);
    last_transition_label = some (event_name_as_str event.event_id);
    last_state_version = version;
  };
}

-- What `dispatch` does after the handler.
unfoldable pub finish_transition : DomainEvent → Option WorkspaceId → Action TransitionResult
finish_transition event affected = do
  modify bump_state_version
  version ← asks (λ s. s.runtime.state_version)
  projection ← affected_layout affected
  let records = transition_records event version projection
  modify (summarize event version (length records))
  pure (record {
    state_version = version;
    affected_workspace_id = affected;
    layout_projection = projection;
    diagnostics = records;
  })

unfoldable pub dispatch : DomainEvent → Action TransitionResult
dispatch event = apply_event event.payload >>= finish_transition event
