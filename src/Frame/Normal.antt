-- ===== src/Frame/Normal.antt =====
-- The workspace set that `WmState::normalize_workspace_set` of crates/domain/src/model.rs leaves.
use flowtile_wm.Base.{◌≡◌, refl, ap, ◌∙◌, Option, none, some, map_some}
use flowtile_wm.Base.Map.{get}
use flowtile_wm.Domain.{
  MonitorId, WorkspaceSetId, WorkspaceSet, WmState, settle, normalize_workspace_set,
}
use flowtile_wm.Domain.Normal.{IsNormal, normalize_set-IsNormal}
use flowtile_wm.Frame.Relation.{Frame-refl}
use flowtile_wm.Frame.Edits.{settle-Frame}

-- A set with an owner is there.
owned :
    (o : Option WorkspaceSet) (m : MonitorId)
    → map_some o (λ set. set.monitor_id) ≡ some m
    → (set : WorkspaceSet) × (o ≡ some set)
owned none m h = cc
owned (some set) m h = (set, refl)

settled_set :
    (set_id : WorkspaceSetId) (set : WorkspaceSet) (s : WmState)
    → get set_id s.workspace_sets ≡ some set
    → (set' : WorkspaceSet) × (get set_id (settle set s).1.workspace_sets ≡ some set')
settled_set set_id set s h = owned _ set.monitor_id (
    (settle-Frame {s₀ = s} set s (Frame-refl s)).owners set_id
    ∙ ap (λ o. map_some o (λ set. set.monitor_id)) h)

-- Normalizing a workspace set that exists leaves a set whose last workspace is empty and whose
-- active workspace is one of its own; the focus records the same active workspace for the monitor.
pub normalize_workspace_set-IsNormal :
    (set_id : WorkspaceSetId) (set : WorkspaceSet) (s : WmState)
    → get set_id s.workspace_sets ≡ some set
    → IsNormal set_id set.monitor_id (normalize_workspace_set set_id s)
unfolding normalize_workspace_set
normalize_workspace_set-IsNormal set_id set s h =
    let (set', e) = settled_set set_id set s h in
    rw (h, normalize_workspace_set) (normalize_set-IsNormal set_id set set' s e)
