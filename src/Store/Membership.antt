-- ===== src/Store/Membership.antt =====
-- Columns and layers, and the windows in them, in crates/wm-core/src/state_store.rs.
use flowtile_wm.Base.{
  ℕ, ◌+◌, min, ℤ, Bool, false, not, ◌&&◌, Option, none, some, List, [], ◌∷◌, ◌++◌, if◌then◌else◌,
  ◌==◌, eq_option, is_some, is_some_and, map_some, and_then, or_else, unwrap_or, contains, first,
  is_empty, length, position, retain, insert_at,
}
use flowtile_wm.Base.Map.{get, insert, remove}
use flowtile_wm.Base.Words.{wrap_u32, capped_i32, sat_add_i32}
use flowtile_wm.Domain.{
  WorkspaceId, ColumnId, WindowId, WmState, Workspace, Column, new_column, RestoreTarget,
  ColumnMode, is_tabbed, WidthSemantics, resolve, is_floating_layer, allocate_column_id,
  edit_workspace, edit_column,
}
use flowtile_wm.Store.Methods.{
  Action, pure, reads, asks, returning, choose, modify, ◌>>=◌, ◌>>◌, require_workspace,
  require_column, require_window,
}
use flowtile_wm.Store.Widths.{workspace_tiled_viewport}

-- `NewColumnRequest` of crates/wm-core/src/lib.rs.
pub record NewColumnRequest : Type 0 where
  pub anchor_column_id : Option ColumnId
  pub insert_index_override : Option ℕ
  pub before_anchor : Bool
  pub mode : ColumnMode
  pub width_semantics : WidthSemantics
  pub preserve_focus_position : Bool

abbrev pub insert_column : ColumnId → Column → WmState → WmState
insert_column id column s = record s {
  layout = record s.layout { columns = insert id column s.layout.columns };
}

abbrev pub remove_column : ColumnId → WmState → WmState
remove_column id s = record s { layout = record s.layout { columns = remove id s.layout.columns } }

abbrev pub edit_strip : WorkspaceId → (List ColumnId → List ColumnId) → WmState → WmState
edit_strip workspace_id f =
    edit_workspace workspace_id (λ w. record w {
      strip = record w.strip { ordered_column_ids = f w.strip.ordered_column_ids };
    })

-- Where the new column goes in the strip.
unfoldable pub insert_index : NewColumnRequest → List ColumnId → ℕ
insert_index request ids =
    unwrap_or
      (or_else (map_some request.insert_index_override (λ index. min index (length ids))) (
        and_then request.anchor_column_id λ anchor.
          map_some (position (λ id. id == anchor) ids)
            (λ index. if request.before_anchor then index else index + 1)))
      (if request.before_anchor then 0 else length ids)

-- How the scroll offset moves, so that the focused column stays where it is on the screen.
unfoldable pub shifted_offset : NewColumnRequest → ℕ → ℕ → ℤ → ℤ
shifted_offset request viewport_width column_gap offset =
    if request.preserve_focus_position && request.before_anchor && is_some request.anchor_column_id
    then sat_add_i32
        (sat_add_i32 offset (capped_i32 (resolve request.width_semantics viewport_width)))
        (capped_i32 column_gap)
    else offset

unfoldable pub insert_new_column : WorkspaceId → WindowId → NewColumnRequest → Action ColumnId
insert_new_column workspace_id window_id request = do
  column_id ← returning allocate_column_id
  modify (
      insert_column column_id
        (new_column column_id request.mode request.width_semantics (window_id ∷ [])))
  viewport ← reads (λ s. workspace_tiled_viewport s workspace_id)
  require_workspace workspace_id
  column_gap ← asks (λ s. s.config_projection.layout_spacing.column_gap)
  modify (
      edit_workspace workspace_id (λ w. record w {
        strip = record w.strip {
          ordered_column_ids =
              insert_at (insert_index request w.strip.ordered_column_ids) column_id
                w.strip.ordered_column_ids;
          scroll_offset = shifted_offset request viewport.width column_gap w.strip.scroll_offset;
        };
      }))
  pure column_id

-- The workspace with the window at the end of its floating layer.
abbrev pub float_window : WindowId → Workspace → Workspace
float_window window_id w =
    let ids =
      if contains window_id w.floating_layer.ordered_window_ids
      then w.floating_layer.ordered_window_ids
      else w.floating_layer.ordered_window_ids ++ window_id ∷ [] in
    record w {
      floating_layer = record w.floating_layer {
        ordered_window_ids = ids;
        z_hints = insert window_id (wrap_u32 (length ids)) w.floating_layer.z_hints;
      };
    }

unfoldable pub push_window_to_floating_layer : WorkspaceId → WindowId → Action (Unit {0})
push_window_to_floating_layer workspace_id window_id = do
  require_workspace workspace_id
  modify (edit_workspace workspace_id (float_window window_id))

-- The column without the window.
unfoldable pub without_window : WindowId → Column → Column
without_window window_id column =
    let ids = retain (λ id. not (id == window_id)) column.ordered_window_ids in
    let selection =
      if eq_option column.tab_selection (some window_id) then first ids else column.tab_selection in
    record column {
      ordered_window_ids = ids;
      tab_selection = selection;
      active_window_id =
          if eq_option column.active_window_id (some window_id)
          then or_else selection (first ids)
          else column.active_window_id;
    }

-- The workspace without the window in its floating layer.
abbrev pub unfloat_window : WindowId → Workspace → Workspace
unfloat_window window_id w = record w {
  floating_layer = record w.floating_layer {
    ordered_window_ids = retain (λ id. not (id == window_id)) w.floating_layer.ordered_window_ids;
    z_hints = remove window_id w.floating_layer.z_hints;
  };
}

-- A column that has lost its last window goes.
unfoldable pub drop_column : WorkspaceId → ColumnId → Action (Unit {0})
drop_column workspace_id column_id = do
  modify (remove_column column_id)
  require_workspace workspace_id
  modify (edit_strip workspace_id (retain (λ id. not (id == column_id))))

unfoldable pub detach_from_column : WorkspaceId → ColumnId → WindowId → Action (Unit {0})
detach_from_column workspace_id column_id window_id = do
  modify (edit_column column_id (without_window window_id))
  column_is_empty ← asks (λ s.
      is_some_and (get column_id s.layout.columns) (λ column. is_empty column.ordered_window_ids))
  if column_is_empty then drop_column workspace_id column_id else pure tt

unfoldable pub detach_from_floating_layer : WorkspaceId → WindowId → Action (Unit {0})
detach_from_floating_layer workspace_id window_id = do
  require_workspace workspace_id
  modify (edit_workspace workspace_id (unfloat_window window_id))

unfoldable pub detach_window_membership : WindowId → Action (Unit {0})
detach_window_membership window_id = do
  window ← require_window window_id
  choose window.column_id (detach_from_floating_layer window.workspace_id window_id)
      (λ column_id. detach_from_column window.workspace_id column_id window_id)

-- The column with the window back in it.
abbrev pub with_window_back : WindowId → Column → Column
with_window_back window_id column = record column {
  ordered_window_ids =
      if contains window_id column.ordered_window_ids
      then column.ordered_window_ids
      else column.ordered_window_ids ++ window_id ∷ [];
  active_window_id = or_else column.active_window_id (some window_id);
  tab_selection = if is_tabbed column.mode then some window_id else column.tab_selection;
}

-- The column of the target, if the strip of the target's workspace still has it.
abbrev pub surviving_column : RestoreTarget → WmState → Option ColumnId
surviving_column target s = and_then target.column_id λ id.
    if is_some_and (get target.workspace_id s.workspaces)
      (λ w. contains id w.strip.ordered_column_ids)
    then some id
    else none

unfoldable pub restore_to_strip :
    WindowId → RestoreTarget → ColumnMode → WidthSemantics → Action (Option ColumnId)
restore_to_strip window_id target fallback_mode fallback_width = do
  surviving ← asks (surviving_column target)
  choose surviving
      (do
        column_id ← insert_new_column target.workspace_id window_id (record {
          anchor_column_id = none;
          insert_index_override = target.column_index;
          before_anchor = false;
          mode = fallback_mode;
          width_semantics = fallback_width;
          preserve_focus_position = false;
        })
        pure (some column_id))
      (λ column_id. do
        require_column column_id
        modify (edit_column column_id (with_window_back window_id))
        pure (some column_id))

unfoldable pub restore_window_to_target :
    WindowId → RestoreTarget → ColumnMode → WidthSemantics → Action (Option ColumnId)
restore_window_to_target window_id target fallback_mode fallback_width =
    if is_floating_layer target.layer
    then push_window_to_floating_layer target.workspace_id window_id >> pure none
    else restore_to_strip window_id target fallback_mode fallback_width
