-- ===== src/Store/Queries.antt =====
-- The methods of crates/wm-core/src/state_store.rs that only read the state.
use flowtile_wm.Base.{
  ℕ, Bool, ◌||◌, Option, none, some, List, [], ◌∷◌, map, if◌then◌else◌, ◌==◌, eq_option,
  is_some_and, keep_if, map_some, and_then, or_else, contains, position, first, is_empty, find_map,
  ok, ok_or,
}
use flowtile_wm.Base.Map.{get}
use flowtile_wm.Domain.{
  WorkspaceId, ColumnId, WindowId, WmState, Workspace, Column, WindowNode, RestoreTarget, is_tabbed,
  is_fullscreen_layer,
}
use flowtile_wm.Store.Methods.{
  unknown_window, invalid_event, Outcome, workspace_or_err, column_or_err,
}
use flowtile_wm.Store.Reading.{◌>>=◌}

unfoldable pub focused_window_in_workspace : WmState → WorkspaceId → Option WindowId
focused_window_in_workspace s workspace_id =
    keep_if s.focus.focused_window_id
      λ id. is_some_and (get id s.windows) (λ window. window.workspace_id == workspace_id)

-- `ordered_column_ids.contains(&id).then_some(id)` in a workspace that may be missing.
abbrev pub column_in_strip : WmState → WorkspaceId → ColumnId → Option ColumnId
column_in_strip s workspace_id id =
    and_then (get workspace_id s.workspaces)
      λ workspace. if contains id workspace.strip.ordered_column_ids then some id else none

unfoldable pub focused_column_in_workspace : WmState → WorkspaceId → Option ColumnId
focused_column_in_workspace s workspace_id =
    and_then s.focus.focused_column_id (column_in_strip s workspace_id)

abbrev pub shows_fullscreen : WindowNode → Bool
shows_fullscreen window = is_fullscreen_layer window.layer || window.is_fullscreen

-- Where the focused window returns to, if it is in fullscreen and came from this workspace.
abbrev fullscreen_target : WmState → WorkspaceId → Option RestoreTarget
fullscreen_target s workspace_id = and_then (focused_window_in_workspace s workspace_id) λ id.
    and_then (get id s.windows) λ window.
      and_then (if shows_fullscreen window then window.restore_target else none)
        λ target. if target.workspace_id == workspace_id then some target else none

unfoldable pub discovery_anchor_column_in_workspace : WmState → WorkspaceId → Option ColumnId
discovery_anchor_column_in_workspace s workspace_id =
    or_else (focused_column_in_workspace s workspace_id) (
      and_then (fullscreen_target s workspace_id)
        λ target. and_then target.column_id (column_in_strip s workspace_id))

unfoldable pub fullscreen_restore_index_in_workspace : WmState → WorkspaceId → Option ℕ
fullscreen_restore_index_in_workspace s workspace_id =
    and_then (fullscreen_target s workspace_id) (λ target. target.column_index)

unfoldable pub column_index_in_workspace : WmState → WorkspaceId → Option ColumnId → Option ℕ
column_index_in_workspace s workspace_id column_id = and_then column_id λ id.
    and_then (get workspace_id s.workspaces)
      λ workspace. position (λ candidate. candidate == id) workspace.strip.ordered_column_ids

unfoldable pub column_active_window : Column → Option WindowId
column_active_window column =
    let usual = or_else column.active_window_id (first column.ordered_window_ids) in
    if is_tabbed column.mode then or_else column.tab_selection usual else usual

unfoldable pub column_workspace_id : WmState → ColumnId → Outcome WorkspaceId
column_workspace_id s column_id = do
  column ← column_or_err s column_id
  window_id ←
      ok_or (first column.ordered_window_ids)
        (invalid_event "column workspace lookup requires a non-empty column")
  window ← ok_or (get window_id s.windows) (unknown_window window_id)
  ok window.workspace_id

-- The loop of `navigation_sequence_for_workspace` over the columns.
unfoldable pub column_sequence :
    WmState → List ColumnId → Outcome (List (WindowId × Option ColumnId))
column_sequence s [] = ok []
column_sequence s (id ∷ ids) = do
  column ← column_or_err s id
  rest ← column_sequence s ids
  ok (elim (column_active_window column) [ none ↦ rest | some window ↦ (window, some id) ∷ rest ])

unfoldable pub navigation_sequence_for_workspace :
    WmState → WorkspaceId → Outcome (List (WindowId × Option ColumnId))
navigation_sequence_for_workspace s workspace_id = do
  workspace ← workspace_or_err s workspace_id
  sequence ← column_sequence s workspace.strip.ordered_column_ids
  ok (
      if is_empty sequence
      then map (λ id. (id, none)) workspace.floating_layer.ordered_window_ids
      else sequence)

-- The first column that has a window to focus, except the one that is left out.
unfoldable pub first_focusable :
    WmState → Option ColumnId → List ColumnId → Option (WindowId × Option ColumnId)
first_focusable s left_out = find_map λ id.
    if eq_option (some id) left_out
    then none
    else and_then (get id s.layout.columns)
        λ column. map_some (column_active_window column) (λ window. (window, some id))

-- What `retarget_focus_after_destroy` focuses next.
unfoldable pub next_focus_after_destroy :
    WmState → Workspace → Option ColumnId → Option (WindowId × Option ColumnId)
next_focus_after_destroy s workspace preferred =
    or_else
      (and_then preferred λ id.
        and_then (get id s.layout.columns)
          λ column. map_some (column_active_window column) (λ window. (window, some id)))
      (or_else (first_focusable s preferred workspace.strip.ordered_column_ids)
        (map_some (first workspace.floating_layer.ordered_window_ids) (λ window. (window, none))))

-- The loop of `workspace_focus_target` over the columns.
unfoldable pub first_active :
    WmState → List ColumnId → Outcome (Option (WindowId × Option ColumnId))
first_active s [] = ok none
first_active s (id ∷ ids) =
    let rest = first_active s ids in
    column_or_err s id >>= λ column. elim (column_active_window column) [
      | none ↦ rest
      | some window ↦ ok (some (window, some id))
    ]

abbrev remembered_window : WmState → WorkspaceId → Workspace → Option (WindowId × Option ColumnId)
remembered_window s workspace_id workspace = and_then workspace.remembered_focused_window_id λ id.
    and_then (get id s.windows) λ window.
      if window.workspace_id == workspace_id
      then some (id, keep_if window.column_id (λ c. contains c workspace.strip.ordered_column_ids))
      else none

abbrev remembered_column : WmState → Workspace → Option (WindowId × Option ColumnId)
remembered_column s workspace = and_then workspace.remembered_focused_column_id λ id.
    if contains id workspace.strip.ordered_column_ids
    then and_then (get id s.layout.columns)
        (λ column. map_some (column_active_window column) (λ window. (window, some id)))
    else none

-- In order: the remembered window, the remembered column, the first column with a window, the
-- first window of the floating layer.
unfoldable pub workspace_focus_target :
    WmState → WorkspaceId → Outcome (Option (WindowId × Option ColumnId))
workspace_focus_target s workspace_id = do
  workspace ← workspace_or_err s workspace_id
  let remembered =
      or_else (remembered_window s workspace_id workspace) (remembered_column s workspace)
  let scanned = do
    found ← first_active s workspace.strip.ordered_column_ids
    ok (
        or_else found
          (map_some (first workspace.floating_layer.ordered_window_ids) (λ window. (window, none))))
  elim remembered [ none ↦ scanned | some target ↦ ok (some target) ]
