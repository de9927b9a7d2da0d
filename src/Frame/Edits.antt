-- ===== src/Frame/Edits.antt =====
-- The frame and the functions of crates/domain/src/model.rs that normalize workspace sets.
use flowtile_wm.Base.{
  ℕ, suc, refl, Bool, true, false, Option, List, [], ◌∷◌, if◌then◌else◌, last, ◌&&◌, Option-cases,
  Bool-cases, inl, inr,
}
use flowtile_wm.Base.Map.{get, insert}
use flowtile_wm.Domain.{
  MonitorId, WorkspaceSetId, WorkspaceId, Rect, WmState, WorkspaceSet, allocate_workspace_id, seed,
  collapse, trim_reversed, trim_tail, grow_tail, renumber, publish, settle, normalize_set,
  normalize_workspace_set, ensure_tail_workspace, workspace_set_id_for_monitor, should_remove,
  remove_workspace, is_workspace_empty,
}
use flowtile_wm.Frame.Relation.{Frame, Frame-step, Frame-edit_set}

module _ {s₀ : WmState} where
  pub seed-Frame :
      (m : MonitorId) (r : Rect) (ids : List WorkspaceId) (s : WmState)
      → Frame s₀ s
      → Frame s₀ (seed m r ids s).1
  unfolding seed allocate_workspace_id insert
  seed-Frame m r [] s h = Frame-step _ h refl refl refl refl refl refl
  seed-Frame m r (id ∷ ids) s h = h

  pub collapse-Frame :
      (a t : Option WorkspaceId) (ids : List WorkspaceId) (s : WmState)
      → Frame s₀ s
      → Frame s₀ (collapse a t ids s).1
  unfolding collapse
  collapse-Frame a t [] s h = h
  collapse-Frame a t (id ∷ ids) s h = collapse-Frame a t ids _ (removed (should_remove a t id s))
    where
      removed : (b : Bool) → Frame s₀ (if b then remove_workspace id s else s)
      removed true = Frame-step _ h refl refl refl refl refl refl
      removed false = h

  trim_reversed-Frame :
      (ids : List WorkspaceId) (s : WmState) → Frame s₀ s → Frame s₀ (trim_reversed ids s).1
  unfolding trim_reversed
  trim_reversed-Frame [] s h = h
  trim_reversed-Frame (id ∷ []) s h = h
  trim_reversed-Frame (id ∷ p ∷ ids) s h =
      choose_Frame (is_workspace_empty s id && is_workspace_empty s p) (
        trim_reversed-Frame (p ∷ ids) (remove_workspace id s)
          (Frame-step _ h refl refl refl refl refl refl))
    where
      choose_Frame :
          (b : Bool)
          → Frame s₀ (trim_reversed (p ∷ ids) (remove_workspace id s)).1
          → Frame s₀
              (if b then trim_reversed (p ∷ ids) (remove_workspace id s) else (id ∷ p ∷ ids, s)).1
      choose_Frame true k = k
      choose_Frame false k = h

  pub trim_tail-Frame :
      (ids : List WorkspaceId) (s : WmState) → Frame s₀ s → Frame s₀ (trim_tail ids s).1
  unfolding trim_tail
  trim_tail-Frame ids s h = trim_reversed-Frame _ s h

  pub grow_tail-Frame :
      (m : MonitorId) (r : Rect) (ids : List WorkspaceId) (s : WmState)
      → Frame s₀ s
      → Frame s₀ (grow_tail m r ids s).1
  unfolding grow_tail allocate_workspace_id insert
  grow_tail-Frame m r ids s h = elim (Option-cases (last ids)) [
    | inl e ↦ rw (e, grow_tail) h
    | inr (id, e) ↦ elim (Bool-cases (is_workspace_empty s id)) [
      | inl b ↦ rw (e, grow_tail, b) h
      | inr b ↦ rw (e, grow_tail, b) (Frame-step _ h refl refl refl refl refl refl)
    ]
  ]

  pub renumber-Frame :
      (m : MonitorId) (r : Rect) (t : Option WorkspaceId) (i : ℕ) (ids : List WorkspaceId)
      (s : WmState)
      → Frame s₀ s
      → Frame s₀ (renumber m r t i ids s)
  unfolding renumber
  renumber-Frame m r t i [] s h = h
  renumber-Frame m r t i (id ∷ ids) s h =
      renumber-Frame m r t (suc i) ids _ (Frame-step _ h refl refl refl refl refl refl)

  pub publish-Frame :
      (k : WorkspaceSetId) (m : MonitorId) (l : Option WorkspaceId) (ids : List WorkspaceId)
      (s : WmState)
      → Frame s₀ s
      → Frame s₀ (publish k m l ids s)
  unfolding publish
  publish-Frame k m l ids s h =
      Frame-step _ (Frame-edit_set k _ (λ set. refl) h) refl refl refl refl refl refl

  pub settle-Frame : (set : WorkspaceSet) (s : WmState) → Frame s₀ s → Frame s₀ (settle set s).1
  unfolding settle
  settle-Frame set s h =
      grow_tail-Frame _ _ _ _ (
        trim_tail-Frame _ _ (collapse-Frame _ _ _ _ (seed-Frame _ _ set.ordered_workspace_ids s h)))

  pub normalize_workspace_set-Frame :
      (k : WorkspaceSetId) (s : WmState) → Frame s₀ s → Frame s₀ (normalize_workspace_set k s)
  unfolding normalize_workspace_set normalize_set
  normalize_workspace_set-Frame k s h = elim (Option-cases (get k s.workspace_sets)) [
    | inl e ↦ rw (e, normalize_workspace_set) h
    | inr (set, e) ↦
        rw (e, normalize_workspace_set)
          (publish-Frame k _ _ _ _ (renumber-Frame _ _ _ 0 _ _ (settle-Frame set s h)))
  ]

  pub ensure_tail_workspace-Frame :
      (m : MonitorId) (s : WmState) → Frame s₀ s → Frame s₀ (ensure_tail_workspace m s).1
  unfolding ensure_tail_workspace
  ensure_tail_workspace-Frame m s h = elim (Option-cases (workspace_set_id_for_monitor s m)) [
    | inl e ↦ rw (e, ensure_tail_workspace) h
    | inr (k, e) ↦ rw (e, ensure_tail_workspace) (normalize_workspace_set-Frame k s h)
  ]
