-- ===== src/Tests/Layouts.antt =====
-- The theorems on layouts, the order of monitors and refused events at concrete inputs.
use flowtile_wm.Base.{◌≡◌, refl, pos, ◌+ℤ◌, some, [], ◌∷◌, contains, length, err, arith}
use flowtile_wm.Base.Map.{get, keys}
use flowtile_wm.Domain.{
  Column, tabbed, MonitorId, WmState, DomainEvent, monitor_ids_in_navigation_order,
}
use flowtile_wm.Domain.Order.{IsOrdered, monitor_ids_in_navigation_order-IsOrdered}
use flowtile_wm.Layout.{strip_origin_x, recompute_workspace}
use flowtile_wm.Layout.Origin.{strip_origin_x-pinned}
use flowtile_wm.Layout.Complete.{Succeeds, recompute_workspace-Succeeds}
use flowtile_wm.Store.{
  select_in_column, toggle_tabbed, dispatch, apply_event, handle_window_destroyed, reads, ◌>>=◌,
  unknown_window,
}
use flowtile_wm.Frame.Dispatch.{dispatch-refused}
use flowtile_wm.Store.Tabs.{IsShowing, column_edits-IsShowing}
use flowtile_wm.Tests.Scene.{
  scene, screen, laid_out, monitor, workspace, column, window, destroy_event,
}

strip_origin_x-pinned_example :
    strip_origin_x (pos 16) 1168 1000 (1 ∷ 2 ∷ []) (some 2) (pos 40) +ℤ pos 1000
    ≡ pos 16 +ℤ pos 1168
unfolding ◌+ℤ◌
strip_origin_x-pinned_example =
    strip_origin_x-pinned (pos 16) 1168 1000 (1 ∷ 2 ∷ []) 2 (pos 40) (omega arith, omega arith)
      (omega arith) (omega arith) (omega arith) (omega arith) refl

monitor_ids_in_navigation_order-IsOrdered_example :
    IsOrdered scene (monitor_ids_in_navigation_order scene)
    × (length (monitor_ids_in_navigation_order scene) ≡ length (keys scene.monitors))
    × ((a : MonitorId)
        → contains a (monitor_ids_in_navigation_order scene) ≡ contains a (keys scene.monitors))
monitor_ids_in_navigation_order-IsOrdered_example = monitor_ids_in_navigation_order-IsOrdered scene

recompute_workspace-Succeeds_example : Succeeds (recompute_workspace laid_out 1)
unfolding get
recompute_workspace-Succeeds_example =
    recompute_workspace-Succeeds laid_out 1 workspace monitor refl refl
      (
        record {
          column = column;
          found = refl;
          members = ((window, refl), ((record window { id = 2 }, refl), tt));
          tab = (window, refl);
        },
        tt,
      )
      tt

dispatch-refused_example :
    ((dispatch destroy_event scene).0 ≡ err (unknown_window 9))
    × ((dispatch destroy_event scene).1 ≡ (apply_event destroy_event.payload scene).1)
    × ((dispatch destroy_event scene).1.runtime.state_version ≡ scene.runtime.state_version)
    × ((dispatch destroy_event scene).1.diagnostics_summary ≡ scene.diagnostics_summary)
unfolding apply_event handle_window_destroyed ◌>>=◌ reads get flowtile_wm.Domain.new_state
dispatch-refused_example = dispatch-refused destroy_event scene (unknown_window 9) refl

-- The column of the scene with tabs.
abbrev tabs : Column
tabs = record column { mode = tabbed }

column_edits-IsShowing_example :
    ((select_in_column 2 tabs).active_window_id ≡ some 2)
    × IsShowing laid_out.windows screen 10 (pos 0) 600 (select_in_column 2 tabs) (2 ∷ [])
    × ((toggle_tabbed 2 tabs).active_window_id ≡ some 2)
    × IsShowing laid_out.windows screen 10 (pos 0) 600 (toggle_tabbed 2 tabs) (1 ∷ 2 ∷ [])
unfolding get
column_edits-IsShowing_example =
    column_edits-IsShowing laid_out.windows screen 10 (pos 0) 600 2 tabs
      ((window, refl), ((record window { id = 2 }, refl), tt)) refl
