-- ===== src/Store/Navigation.antt =====
-- Moving the focus between windows, in crates/wm-core/src/state_store.rs.
use flowtile_wm.Base.{
  ℕ, ◌+◌, ◌-◌, ◌%◌, min, Bool, true, false, not, ◌||◌, Option, none, some, List, if◌then◌else◌, ltb,
  ◌==◌, or_else, unwrap_or, position, get_or, length, first, is_empty, ok_or,
}
use flowtile_wm.Domain.{
  WorkspaceId, ColumnId, WindowId, Column, is_tabbed, user_command, edit_column, NavigationScope,
  workspace_strip, column_tabs, FocusCommandPayload,
}
use flowtile_wm.Store.Methods.{
  Action, invalid_event, pure, reads, asks, choose, modify, ◌>>=◌, ◌>>◌, require_workspace,
  require_column, if_some,
}
use flowtile_wm.Store.Queries.{
  focused_window_in_workspace, focused_column_in_workspace, navigation_sequence_for_workspace,
}
use flowtile_wm.Store.Monitors.{active_workspace_id_for_commands}
use flowtile_wm.Store.Focus.{set_focus_to_window, reveal_column_in_workspace}

-- The next tab, around the ends.
unfoldable pub next_tab_index : Bool → ℕ → ℕ → ℕ
next_tab_index forward index count =
    if forward then (index + 1) % count else if index == 0 then count - 1 else index - 1

unfoldable pub cycle_tab : WorkspaceId → ColumnId → Bool → Column → Action Bool
cycle_tab workspace_id column_id forward column = do
  current ← reads (λ s.
      ok_or
        (or_else column.tab_selection (
          or_else column.active_window_id (
            or_else (focused_window_in_workspace s workspace_id)
              (first column.ordered_window_ids))))
        (invalid_event "tabbed column is missing a selected window"))
  let index = unwrap_or (position (λ id. id == current) column.ordered_window_ids) 0
  let next = next_tab_index forward index (length column.ordered_window_ids)
  let window_id = get_or column.ordered_window_ids next 0
  workspace ← require_workspace workspace_id
  require_column column_id
  modify (edit_column column_id (λ c. record c { tab_selection = some window_id }))
  set_focus_to_window workspace.monitor_id workspace_id window_id (some column_id) user_command
  reveal_column_in_workspace workspace_id column_id
  pure true

unfoldable pub try_cycle_tabbed_focus : WorkspaceId → ColumnId → Bool → Action Bool
try_cycle_tabbed_focus workspace_id column_id forward = do
  column ← require_column column_id
  if not (is_tabbed column.mode) || ltb (length column.ordered_window_ids) 2
      then pure false
      else cycle_tab workspace_id column_id forward column

-- The next place in the sequence, which stops at its ends; from no place, the near end.
unfoldable pub next_index : Bool → Option WindowId → List (WindowId × Option ColumnId) → ℕ
next_index forward none sequence = if forward then 0 else length sequence - 1
next_index forward (some window_id) sequence =
    let current = unwrap_or (position (λ entry. entry.0 == window_id) sequence) 0 in
    if forward then min (current + 1) (length sequence - 1) else current - 1

-- The focus goes along the strip.
unfoldable pub navigate_strip : WorkspaceId → Bool → Action (Option WorkspaceId)
navigate_strip workspace_id forward = do
  sequence ← reads (λ s. navigation_sequence_for_workspace s workspace_id)
  focused ← asks (λ s. focused_window_in_workspace s workspace_id)
  let target = get_or sequence (next_index forward focused sequence) (0, none)
  if is_empty sequence then pure (some workspace_id) else do
    workspace ← require_workspace workspace_id
    set_focus_to_window workspace.monitor_id workspace_id target.0 target.1 user_command
    if_some target.1 (reveal_column_in_workspace workspace_id)
    pure (some workspace_id)

-- The focus goes to the next tab of the focused column, if the scope asks for tabs.
unfoldable pub navigate_tabs : NavigationScope → WorkspaceId → Bool → Action Bool
navigate_tabs workspace_strip workspace_id forward = pure false
navigate_tabs column_tabs workspace_id forward = do
  column_id ← asks (λ s. focused_column_in_workspace s workspace_id)
  choose column_id (pure false) (λ id. try_cycle_tabbed_focus workspace_id id forward)

unfoldable pub handle_focus_navigation : Bool → FocusCommandPayload → Action (Option WorkspaceId)
handle_focus_navigation forward payload = do
  workspace_id ← reads active_workspace_id_for_commands
  cycled ← navigate_tabs payload.scope workspace_id forward
  if cycled then pure (some workspace_id) else navigate_strip workspace_id forward
