-- ===== src/Store/Shown.antt =====
-- The overview in crates/wm-core/src/state_store/overview.rs.
use flowtile_wm.Base.{◌+◌, ◌≤◌, ◌≡◌, refl, false, none, arith}
use flowtile_wm.Base.Words.{u64_max}
use flowtile_wm.Domain.{MonitorId, WorkspaceId, OverviewState}
use flowtile_wm.Store.Overview.{opened, closed}

-- Opening the overview twice on the same workspace is the same as opening it once, and closing it
-- twice the same as closing it once, the projection version included.
overview-idempotent :
    (monitor_id : MonitorId) (workspace_id : WorkspaceId) (overview : OverviewState)
    → (opened monitor_id workspace_id (opened monitor_id workspace_id overview)
        ≡ opened monitor_id workspace_id overview)
      × (closed (closed overview) ≡ closed overview)
unfolding opened closed
overview-idempotent monitor_id workspace_id overview = (ground arith, refl)

-- With the projection version at least two below the largest `u64`, opening a closed overview
-- raises it by one, closing it again raises it by one more, and leaves the overview closed
-- without a selection.
overview-version :
    (monitor_id : MonitorId) (workspace_id : WorkspaceId) (overview : OverviewState)
    → overview.is_open ≡ false
    → overview.projection_version + 2 ≤ u64_max
    → ((opened monitor_id workspace_id overview).projection_version
        ≡ overview.projection_version + 1)
      × ((closed (opened monitor_id workspace_id overview)).projection_version
          ≡ overview.projection_version + 2)
      × ((closed (opened monitor_id workspace_id overview)).is_open ≡ false)
      × ((closed (opened monitor_id workspace_id overview)).selection ≡ none)
unfolding opened closed
overview-version monitor_id workspace_id overview h k = (ground arith, ground arith, refl, refl)

-- Opening the overview twice on the same workspace is the same as opening it once, and closing it
-- twice the same as closing it once. With the projection version at least two below the largest `u64`,
-- opening a closed overview raises it by one, closing it again raises it by one more, and leaves the
-- overview closed without a selection.
pub overview-toggles :
    (monitor_id : MonitorId) (workspace_id : WorkspaceId) (overview : OverviewState)
    → overview.is_open ≡ false
    → overview.projection_version + 2 ≤ u64_max
    → (opened monitor_id workspace_id (opened monitor_id workspace_id overview)
        ≡ opened monitor_id workspace_id overview)
      × (closed (closed overview) ≡ closed overview)
      × ((opened monitor_id workspace_id overview).projection_version
          ≡ overview.projection_version + 1)
      × ((closed (opened monitor_id workspace_id overview)).projection_version
          ≡ overview.projection_version + 2)
      × ((closed (opened monitor_id workspace_id overview)).is_open ≡ false)
      × ((closed (opened monitor_id workspace_id overview)).selection ≡ none)
overview-toggles monitor_id workspace_id overview h k =
    let (a, b) = overview-idempotent monitor_id workspace_id overview in
    let (c, d, e, f) = overview-version monitor_id workspace_id overview h k in (a, b, c, d, e, f)
