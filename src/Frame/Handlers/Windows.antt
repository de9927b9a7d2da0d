-- ===== src/Frame/Handlers/Windows.antt =====
-- The frame and the commands on windows and columns of crates/wm-core/src/state_store.rs and
-- window_modes.rs.
use flowtile_wm.Base.{refl, Bool}
use flowtile_wm.Domain.{
  MonitorId, WorkspaceId, ColumnId, WindowId, WmState, Column, WindowNode, RestoreTarget,
  ColumnMode, WidthSemantics, WindowLayer, allocate_window_id, allocate_column_id,
  StripScrollPayload, WindowCommandPayload,
}
use flowtile_wm.Store.{
  NewColumnRequest, insert_new_column, push_window_to_floating_layer, drop_column,
  detach_from_column, detach_from_floating_layer, detach_window_membership, restore_to_strip,
  restore_window_to_target, Direction, handle_strip_scroll, restore_from_layer, lift_to_layer,
  handle_toggle_floating, handle_toggle_fullscreen, change_column, handle_toggle_tabbed,
  handle_toggle_maximized,
}
use flowtile_wm.Keeps.{Keeps, keeps_rules}
use flowtile_wm.Frame.Relation.{Frame, Frame-step}
use flowtile_wm.Frame.Edits.{ensure_tail_workspace-Frame}
use flowtile_wm.Frame.Handlers.Focus.{
  apply_scroll_delta-Frame, clamp_scroll_offset-Frame, reveal-Frame, set_focus_to_window-Frame,
  retarget_focus_after_destroy-Frame, activate_in_set-Frame,
}

pub ruleset focus_rules = (
  keeps_rules, Frame-step, apply_scroll_delta-Frame, clamp_scroll_offset-Frame, reveal-Frame,
  set_focus_to_window-Frame, retarget_focus_after_destroy-Frame, ensure_tail_workspace-Frame,
)

module _ {s₀ : WmState} where
  allocate_column_id-Frame : (s : WmState) → Frame s₀ s → Frame s₀ (allocate_column_id s).1
  unfolding allocate_column_id
  allocate_column_id-Frame s h = Frame-step _ h refl refl refl refl refl refl

  pub allocate_window_id-Frame : (s : WmState) → Frame s₀ s → Frame s₀ (allocate_window_id s).1
  unfolding allocate_window_id
  allocate_window_id-Frame s h = Frame-step _ h refl refl refl refl refl refl

  pub insert_new_column-Frame :
      (ws : WorkspaceId) (w : WindowId) (r : NewColumnRequest)
      → Keeps (Frame s₀) (insert_new_column ws w r)
  unfolding insert_new_column
  insert_new_column-Frame ws w r = search (focus_rules, allocate_column_id-Frame) depth 9

  pub push_window-Frame :
      (ws : WorkspaceId) (w : WindowId) → Keeps (Frame s₀) (push_window_to_floating_layer ws w)
  unfolding push_window_to_floating_layer
  push_window-Frame ws w = search focus_rules

  drop_column-Frame : (ws : WorkspaceId) (c : ColumnId) → Keeps (Frame s₀) (drop_column ws c)
  unfolding drop_column
  drop_column-Frame ws c = search focus_rules depth 7

  detach_from_column-Frame :
      (ws : WorkspaceId) (c : ColumnId) (w : WindowId)
      → Keeps (Frame s₀) (detach_from_column ws c w)
  unfolding detach_from_column
  detach_from_column-Frame ws c w = search (focus_rules, drop_column-Frame) depth 7

  detach_floating-Frame :
      (ws : WorkspaceId) (w : WindowId) → Keeps (Frame s₀) (detach_from_floating_layer ws w)
  unfolding detach_from_floating_layer
  detach_floating-Frame ws w = search focus_rules

  pub detach-Frame : (w : WindowId) → Keeps (Frame s₀) (detach_window_membership w)
  unfolding detach_window_membership
  detach-Frame w = search (keeps_rules, detach_from_column-Frame, detach_floating-Frame)

  restore_to_strip-Frame :
      (w : WindowId) (t : RestoreTarget) (m : ColumnMode) (d : WidthSemantics)
      → Keeps (Frame s₀) (restore_to_strip w t m d)
  unfolding restore_to_strip
  restore_to_strip-Frame w t m d = search (focus_rules, insert_new_column-Frame) depth 7

  restore_window-Frame :
      (w : WindowId) (t : RestoreTarget) (m : ColumnMode) (d : WidthSemantics)
      → Keeps (Frame s₀) (restore_window_to_target w t m d)
  unfolding restore_window_to_target
  restore_window-Frame w t m d = search (keeps_rules, push_window-Frame, restore_to_strip-Frame)

  restore_from_layer-Frame :
      (f : WindowLayer → Bool) (w : WindowId) (n : WindowNode) (m : MonitorId)
      → Keeps (Frame s₀) (restore_from_layer f w n m)
  unfolding restore_from_layer
  restore_from_layer-Frame f w n m =
      search (focus_rules, detach-Frame, restore_window-Frame) depth 12

  lift_to_layer-Frame :
      (l : WindowLayer) (w : WindowId) (n : WindowNode) (m : MonitorId)
      → Keeps (Frame s₀) (lift_to_layer l w n m)
  unfolding lift_to_layer
  lift_to_layer-Frame l w n m = search (focus_rules, detach-Frame, push_window-Frame) depth 12

  pub toggle_floating-Frame :
      (p : WindowCommandPayload) → Keeps (Frame s₀) (handle_toggle_floating p)
  unfolding handle_toggle_floating
  toggle_floating-Frame p =
      search (focus_rules, restore_from_layer-Frame, lift_to_layer-Frame) depth 9

  pub toggle_fullscreen-Frame :
      (p : WindowCommandPayload) → Keeps (Frame s₀) (handle_toggle_fullscreen p)
  unfolding handle_toggle_fullscreen
  toggle_fullscreen-Frame p =
      search (focus_rules, restore_from_layer-Frame, lift_to_layer-Frame) depth 9

  change_column-Frame :
      (f : WindowId → Column → Column) (p : WindowCommandPayload)
      → Keeps (Frame s₀) (change_column f p)
  unfolding change_column
  change_column-Frame f p = search focus_rules depth 9

  pub toggle_tabbed-Frame : (p : WindowCommandPayload) → Keeps (Frame s₀) (handle_toggle_tabbed p)
  unfolding handle_toggle_tabbed
  toggle_tabbed-Frame p = change_column-Frame _ p

  pub toggle_maximized-Frame :
      (p : WindowCommandPayload) → Keeps (Frame s₀) (handle_toggle_maximized p)
  unfolding handle_toggle_maximized
  toggle_maximized-Frame p = change_column-Frame _ p

  pub strip_scroll-Frame :
      (d : Direction) (p : StripScrollPayload) → Keeps (Frame s₀) (handle_strip_scroll d p)
  unfolding handle_strip_scroll
  strip_scroll-Frame d p = search focus_rules depth 7
