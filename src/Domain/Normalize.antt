-- ===== src/Domain/Normalize.antt =====
-- `WmState::normalize_workspace_set`, `add_monitor` and `ensure_tail_workspace` of
-- crates/domain/src/model.rs. Each passage of the method is a function that takes the working
-- list of identifiers and the state, and returns both.
use Prim.Native.String.{◌++◌}
use flowtile_wm.Base.{
  ℕ, suc, Bool, not, ◌&&◌, Option, none, some, List, [], ◌∷◌, reverse, if◌then◌else◌, eq_option,
  map_some, and_then, unwrap_or, is_none, is_some_and, keep_if, length, last, get_or, contains,
  find,
}
use mathlib.Core.List.{◌++◌ as append}
use flowtile_wm.Base.Map.{get, insert, remove}
use flowtile_wm.Base.Text.{decimal}
use flowtile_wm.Domain.Geometry.{MonitorId, WorkspaceSetId, WorkspaceId, Rect, default_rect}
use flowtile_wm.Domain.Modes.{primary, secondary}
use flowtile_wm.Domain.Entities.{Workspace, WorkspaceSet, empty_workspace}
use flowtile_wm.Domain.State.{
  WmState, allocate_monitor_id, allocate_workspace_set_id, allocate_workspace_id,
  workspace_set_id_for_monitor, is_workspace_empty, edit_workspace, edit_workspace_set,
}

-- The working list and the state.
abbrev pub Working : Type 0
Working = List WorkspaceId × WmState

abbrev pub monitor_region : WmState → MonitorId → Rect
monitor_region s id = unwrap_or (map_some (get id s.monitors) (λ m. m.work_area_rect)) default_rect

abbrev pub insert_workspace : WorkspaceId → Workspace → WmState → WmState
insert_workspace id w s = record s { workspaces = insert id w s.workspaces }

abbrev pub remove_workspace : WorkspaceId → WmState → WmState
remove_workspace id s = record s { workspaces = remove id s.workspaces }

-- An empty set gets a first workspace.
unfoldable pub seed : MonitorId → Rect → List WorkspaceId → WmState → Working
seed monitor_id region [] s =
    let (id, s') = allocate_workspace_id s in
    (id ∷ [], insert_workspace id (empty_workspace id monitor_id 0 region) s')
seed monitor_id region (id ∷ ids) s = (id ∷ ids, s)

-- An empty workspace goes, unless it is the active one, the last one, or has a name.
unfoldable pub should_remove :
    Option WorkspaceId → Option WorkspaceId → WorkspaceId → WmState → Bool
should_remove active tail id s =
    is_workspace_empty s id
    && not (eq_option (some id) active)
    && not (eq_option (some id) tail)
    && is_some_and (get id s.workspaces) (λ w. is_none w.name)

unfoldable pub collapse :
    Option WorkspaceId → Option WorkspaceId → List WorkspaceId → WmState → Working
collapse active tail [] s = ([], s)
collapse active tail (id ∷ ids) s =
    let gone = should_remove active tail id s in
    let (rest, s') = collapse active tail ids (if gone then remove_workspace id s else s) in
    (if gone then rest else id ∷ rest, s')

-- The loop that takes the last workspace away while it and the one before it are empty. The list
-- is from last to first.
unfoldable pub trim_reversed : List WorkspaceId → WmState → Working
trim_reversed [] s = ([], s)
trim_reversed (id ∷ []) s = (id ∷ [], s)
trim_reversed (id ∷ previous ∷ ids) s =
    let shorter = trim_reversed (previous ∷ ids) (remove_workspace id s) in
    if is_workspace_empty s id && is_workspace_empty s previous
    then shorter
    else (id ∷ previous ∷ ids, s)

unfoldable pub trim_tail : List WorkspaceId → WmState → Working
trim_tail ids s = let (kept, s') = trim_reversed (reverse ids) s in (reverse kept, s')

-- A last workspace with windows gets an empty one behind it.
unfoldable pub grow_tail : MonitorId → Rect → List WorkspaceId → WmState → Working
grow_tail monitor_id region ids s = elim (last ids) [
  | none ↦ (ids, s)
  | some id ↦
      if is_workspace_empty s id
      then (ids, s)
      else let (fresh, s') = allocate_workspace_id s in
        (
          append ids (fresh ∷ []),
          insert_workspace fresh (empty_workspace fresh monitor_id (length ids) region) s',
        )
]

-- The loop that writes each workspace's place in the set.
unfoldable pub renumber :
    MonitorId → Rect → Option WorkspaceId → ℕ → List WorkspaceId → WmState → WmState
renumber monitor_id region tail index [] s = s
renumber monitor_id region tail index (id ∷ ids) s =
    let is_empty = is_workspace_empty s id in
    renumber monitor_id region tail (suc index) ids (
      edit_workspace id
        (λ w. record w {
          monitor_id = monitor_id;
          vertical_index = index;
          strip = record w.strip { visible_region = region };
          floating_layer = record w.floating_layer { workspace_id = id };
          is_ephemeral_empty_tail = eq_option (some id) tail && is_empty;
        })
        s)

-- The active workspace stays, if it is still in the list, and else is the first one.
unfoldable pub keep_active : List WorkspaceId → Option WorkspaceId → WorkspaceId
keep_active ids active = unwrap_or (keep_if active (λ id. contains id ids)) (get_or ids 0 0)

unfoldable pub last_non_empty : List WorkspaceId → WmState → Option WorkspaceId
last_non_empty ids s = find (λ id. not (is_workspace_empty s id)) (reverse ids)

-- The last passage: the set and the focus take the new list and the active workspace.
unfoldable pub publish :
    WorkspaceSetId → MonitorId → Option WorkspaceId → List WorkspaceId → WmState → WmState
publish set_id monitor_id last_non_empty_id ids s =
    let active =
      keep_active ids (map_some (get set_id s.workspace_sets) (λ set. set.active_workspace_id)) in
    let s' =
      edit_workspace_set set_id
        (λ set. record set {
          ordered_workspace_ids = ids;
          active_workspace_id = active;
          last_non_empty_workspace_id = last_non_empty_id;
        })
        s in
    record s' {
      focus = record s'.focus {
        active_workspace_by_monitor = insert monitor_id active s'.focus.active_workspace_by_monitor;
      };
    }

-- The list and the state that are numbered and published.
unfoldable pub settle : WorkspaceSet → WmState → Working
settle set s =
    let region = monitor_region s set.monitor_id in
    let (ids₀, s₀) = seed set.monitor_id region set.ordered_workspace_ids s in
    let (ids₁, s₁) = collapse (some set.active_workspace_id) (last ids₀) ids₀ s₀ in
    let (ids₂, s₂) = trim_tail ids₁ s₁ in grow_tail set.monitor_id region ids₂ s₂

unfoldable pub normalize_set : WorkspaceSetId → WorkspaceSet → WmState → WmState
normalize_set set_id set s =
    let (ids, s') = settle set s in
    publish set_id set.monitor_id (last_non_empty ids s') ids
      (renumber set.monitor_id (monitor_region s set.monitor_id) (last ids) 0 ids s')

unfoldable pub normalize_workspace_set : WorkspaceSetId → WmState → WmState
normalize_workspace_set set_id s = elim (get set_id s.workspace_sets) [
  | none ↦ s
  | some set ↦ normalize_set set_id set s
]

unfoldable pub ensure_tail_workspace : MonitorId → WmState → Option WorkspaceId × WmState
ensure_tail_workspace monitor_id s = elim (workspace_set_id_for_monitor s monitor_id) [
  | none ↦ (none, s)
  | some set_id ↦
      let s' = normalize_workspace_set set_id s in
      (and_then (get set_id s'.workspace_sets) (λ set. last set.ordered_workspace_ids), s')
]

unfoldable pub add_monitor : Rect → ℕ → Bool → WmState → MonitorId × WmState
add_monitor work_area dpi is_primary_hint s =
    let (monitor_id, s₁) = allocate_monitor_id s in
    let (set_id, s₂) = allocate_workspace_set_id s₁ in
    let (workspace_id, s₃) = allocate_workspace_id s₂ in
    (
      monitor_id,
      normalize_workspace_set set_id (record s₃ {
        monitors =
            insert monitor_id
              (record {
                id = monitor_id;
                platform_binding = some ("monitor-" ++ decimal monitor_id);
                work_area_rect = work_area;
                dpi = dpi;
                topology_role = if is_primary_hint then primary else secondary;
                workspace_set_id = set_id;
                is_primary_hint = is_primary_hint;
              })
              s₃.monitors;
        workspaces =
            insert workspace_id (empty_workspace workspace_id monitor_id 0 work_area) s₃.workspaces;
        workspace_sets =
            insert set_id
              (record {
                id = set_id;
                monitor_id = monitor_id;
                ordered_workspace_ids = workspace_id ∷ [];
                active_workspace_id = workspace_id;
                last_non_empty_workspace_id = none;
              })
              s₃.workspace_sets;
        focus = record s₃.focus {
          active_workspace_by_monitor =
              insert monitor_id workspace_id s₃.focus.active_workspace_by_monitor;
          focused_monitor_id = elim s₃.focus.focused_monitor_id [
            | none ↦ some monitor_id
            | some id ↦ some id
          ];
        };
      }),
    )
