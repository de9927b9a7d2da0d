-- ===== src/Frame/Relation.antt =====
-- The relation between the state before and after an event of crates/wm-core/src/state_store.rs,
-- and edits of a state that respect it.
use flowtile_wm.Base.{◌≡◌, refl, ◌∙◌, Option, map_some, arith}
use flowtile_wm.Base.Map.{get, adjust, get-adjust}
use flowtile_wm.Domain.{MonitorId, WorkspaceSetId, WmState, WorkspaceSet}

-- The monitor that a workspace set belongs to.
abbrev pub owner : WmState → WorkspaceSetId → Option MonitorId
owner s id = map_some (get id s.workspace_sets) (λ set. set.monitor_id)

pub record Frame (s₀ s : WmState) : Type 0 where
  pub monitors : s.monitors ≡ s₀.monitors
  pub version : s.runtime.state_version ≡ s₀.runtime.state_version
  pub boot_mode : s.runtime.boot_mode ≡ s₀.runtime.boot_mode
  pub capture_policy : s.capture_policy ≡ s₀.capture_policy
  pub diagnostics : s.diagnostics_summary ≡ s₀.diagnostics_summary
  pub owners : (id : WorkspaceSetId) → owner s id ≡ owner s₀ id

pub Frame-refl : (s : WmState) → Frame s s
Frame-refl s = record {
  monitors = refl;
  version = refl;
  boot_mode = refl;
  capture_policy = refl;
  diagnostics = refl;
  owners = λ id. refl;
}

-- A step that leaves these fields alone.
pub Frame-step :
    {s₀ s : WmState} (t : WmState)
    → Frame s₀ s
    → t.monitors ≡ s.monitors
    → t.runtime.state_version ≡ s.runtime.state_version
    → t.runtime.boot_mode ≡ s.runtime.boot_mode
    → t.capture_policy ≡ s.capture_policy
    → t.diagnostics_summary ≡ s.diagnostics_summary
    → t.workspace_sets ≡ s.workspace_sets
    → Frame s₀ t
Frame-step t h m v b c d w = record {
  monitors = m ∙ h.monitors;
  version = v ∙ h.version;
  boot_mode = b ∙ h.boot_mode;
  capture_policy = c ∙ h.capture_policy;
  diagnostics = d ∙ h.diagnostics;
  owners = λ id. rw w (h.owners id);
}

-- An edit of a set that leaves its monitor alone.
pub Frame-edit_set :
    {s₀ s : WmState} (k : WorkspaceSetId) (f : WorkspaceSet → WorkspaceSet)
    → ((set : WorkspaceSet) → (f set).monitor_id ≡ set.monitor_id)
    → Frame s₀ s
    → Frame s₀ (record s { workspace_sets = adjust k f s.workspace_sets })
Frame-edit_set {s₀} {s} k f same h = record {
  monitors = h.monitors;
  version = h.version;
  boot_mode = h.boot_mode;
  capture_policy = h.capture_policy;
  diagnostics = h.diagnostics;
  owners = λ id. owner-adjust (get id s.workspace_sets) id ∙ h.owners id;
}
  where
    kept :
        (o : Option WorkspaceSet)
        → map_some (map_some o f) (λ set. set.monitor_id) ≡ map_some o (λ set. set.monitor_id)
    kept = elim [ Option.none ↦ refl | Option.some set ↦ rw (same set) ]

    owner-adjust :
        (o : Option WorkspaceSet) (id : WorkspaceSetId)
        → map_some (get id (adjust k f s.workspace_sets)) (λ set. set.monitor_id)
          ≡ map_some (get id s.workspace_sets) (λ set. set.monitor_id)
    owner-adjust o id = rw get-adjust (ground (arith, kept (get id s.workspace_sets)))
