-- ===== src/Domain/Normal.antt =====
-- What `WmState::normalize_workspace_set` of crates/domain/src/model.rs establishes.
use flowtile_wm.Base.{
  ℕ, suc, ◌≡◌, refl, ap, ◌∙◌, inl, inr, Bool, true, false, ◌&&◌, Option, none, some, List, [], ◌∷◌,
  ◌++◌, reverse, if◌then◌else◌, ◌==◌, get_or, length, map_some, contains, last, last-snoc, is_empty,
  arith, Bool-cases,
}
use mathlib.Core.List.{reverse-cons}
use flowtile_wm.Base.Map.{get, get-adjust, get-adjust_self, get-insert_self}
use flowtile_wm.Domain.Geometry.{MonitorId, WorkspaceSetId, WorkspaceId, Rect}
use flowtile_wm.Domain.Entities.{Workspace, WorkspaceSet, empty_workspace}
use flowtile_wm.Domain.State.{
  WmState, allocate_workspace_id, is_workspace_empty, workspace_is_empty, edit_workspace,
}
use flowtile_wm.Domain.Normalize.{
  seed, should_remove, collapse, trim_reversed, trim_tail, grow_tail, renumber, keep_active,
  last_non_empty, publish, settle, normalize_set, remove_workspace, monitor_region,
}

-- The set that `normalize_workspace_set` leaves, and the state around it.
pub record IsNormal (set_id : WorkspaceSetId) (monitor_id : MonitorId) (s : WmState) : Type 0 where
  pub set : WorkspaceSet
  pub tail : WorkspaceId
  pub found : get set_id s.workspace_sets ≡ some set
  pub tail_last : last set.ordered_workspace_ids ≡ some tail
  pub tail_empty : is_workspace_empty s tail ≡ true
  pub active_listed : contains set.active_workspace_id set.ordered_workspace_ids ≡ true
  pub focus_agrees :
      get monitor_id s.focus.active_workspace_by_monitor ≡ some set.active_workspace_id

contains-last :
    (ids : List WorkspaceId) (t : WorkspaceId)
    → last ids ≡ some t
    → contains (get_or ids 0 0) ids ≡ true
contains-last [] t h = cc
contains-last (x ∷ ids) t h = ground arith

keep_active-listed :
    (ids : List WorkspaceId) (o : Option WorkspaceId) (t : WorkspaceId)
    → last ids ≡ some t
    → contains (keep_active ids o) ids ≡ true
unfolding keep_active
keep_active-listed ids none t h = contains-last ids t h
keep_active-listed ids (some a) t h = elim (Bool-cases (contains a ids)) [
  | inl e ↦ rw e e
  | inr e ↦ rw e (contains-last ids t h)
]

-- Edits of a workspace that leave its columns and its floating layer.
edit_workspace-empty :
    (id : WorkspaceId) (f : Workspace → Workspace) (s : WmState) (t : WorkspaceId)
    → ((w : Workspace)
        → workspace_is_empty s.layout.columns (some (f w))
          ≡ workspace_is_empty s.layout.columns (some w))
    → is_workspace_empty (edit_workspace id f s) t ≡ is_workspace_empty s t
unfolding is_workspace_empty
edit_workspace-empty id f s t same =
    rw (get-adjust id f s.workspaces t) (chosen (id == t) (get t s.workspaces))
  where
    chosen :
        (b : Bool) (o : Option Workspace)
        → workspace_is_empty s.layout.columns (if b then map_some o f else o)
          ≡ workspace_is_empty s.layout.columns o
    chosen true none = refl
    chosen true (some w) = same w
    chosen false o = refl

renumber-empty :
    (m : MonitorId) (r : Rect) (tail : Option WorkspaceId) (i : ℕ) (ids : List WorkspaceId)
    (s : WmState) (t : WorkspaceId)
    → is_workspace_empty (renumber m r tail i ids s) t ≡ is_workspace_empty s t
unfolding renumber
renumber-empty m r tail i [] s t = refl
renumber-empty m r tail i (id ∷ ids) s t =
    renumber-empty m r tail (suc i) ids _ t ∙ edit_workspace-empty id _ s t (λ w. refl)

renumber-sets :
    (m : MonitorId) (r : Rect) (tail : Option WorkspaceId) (i : ℕ) (ids : List WorkspaceId)
    (s : WmState)
    → (renumber m r tail i ids s).workspace_sets ≡ s.workspace_sets
unfolding renumber
renumber-sets m r tail i [] s = refl
renumber-sets m r tail i (id ∷ ids) s = renumber-sets m r tail (suc i) ids _

is_empty-append : (ids : List ℕ) (x : ℕ) → is_empty (ids ++ x ∷ []) ≡ false
is_empty-append [] x = refl
is_empty-append (y ∷ ids) x = refl

is_empty-reverse : (ids : List ℕ) → is_empty (reverse ids) ≡ is_empty ids
is_empty-reverse [] = refl
is_empty-reverse (x ∷ ids) = ap is_empty (reverse-cons x ids) ∙ is_empty-append (reverse ids) x

last-of : (ids : List ℕ) → is_empty ids ≡ false → (t : ℕ) × (last ids ≡ some t)
last-of [] h = cc
last-of (x ∷ []) h = (x, refl)
last-of (x ∷ y ∷ ids) h = last-of (y ∷ ids) refl

contains-tail : (ids : List ℕ) (t : ℕ) → last ids ≡ some t → contains t ids ≡ true
contains-tail [] t h = cc
contains-tail (x ∷ []) t h = ground arith
contains-tail (x ∷ y ∷ ids) t h = ground (arith, contains-tail (y ∷ ids) t h)

-- None of the passages empties the list.
seed-nonempty :
    (m : MonitorId) (r : Rect) (ids : List WorkspaceId) (s : WmState)
    → is_empty (seed m r ids s).0 ≡ false
unfolding seed allocate_workspace_id
seed-nonempty m r [] s = refl
seed-nonempty m r (id ∷ ids) s = refl

not_tail :
    (active : Option WorkspaceId) (t id : WorkspaceId) (s : WmState)
    → should_remove active (some t) id s ≡ true
    → (id == t) ≡ false
unfolding should_remove
not_tail active t id s e = ground (arith, e)

collapse-nonempty :
    (active : Option WorkspaceId) (t : WorkspaceId) (ids : List WorkspaceId) (s : WmState)
    → contains t ids ≡ true
    → is_empty (collapse active (some t) ids s).0 ≡ false
unfolding collapse
collapse-nonempty active t [] s h = cc
collapse-nonempty active t (id ∷ ids) s h = elim (Bool-cases (should_remove active (some t) id s)) [
  | inl e ↦ rw (e, collapse) (collapse-nonempty active t ids _ (in_rest e))
  | inr e ↦ rw (e, collapse) refl
]
  where
    in_rest : should_remove active (some t) id s ≡ true → contains t ids ≡ true
    in_rest e = let k = not_tail active t id s e in ground (arith, k, h)

trim_reversed-nonempty :
    (ids : List WorkspaceId) (s : WmState)
    → is_empty ids ≡ false
    → is_empty (trim_reversed ids s).0 ≡ false
unfolding trim_reversed
trim_reversed-nonempty [] s h = h
trim_reversed-nonempty (id ∷ []) s h = refl
trim_reversed-nonempty (id ∷ p ∷ ids) s h =
    elim (Bool-cases (is_workspace_empty s id && is_workspace_empty s p)) [
      | inl e ↦
          rw (e, trim_reversed) (trim_reversed-nonempty (p ∷ ids) (remove_workspace id s) refl)
      | inr e ↦ rw (e, trim_reversed) refl
    ]

trim_tail-nonempty :
    (ids : List WorkspaceId) (s : WmState)
    → is_empty ids ≡ false
    → is_empty (trim_tail ids s).0 ≡ false
unfolding trim_tail
trim_tail-nonempty ids s h =
    is_empty-reverse (trim_reversed (reverse ids) s).0
    ∙ trim_reversed-nonempty (reverse ids) s (is_empty-reverse ids ∙ h)

-- A list and a state whose last workspace is empty.
pub record EndsEmpty (ids : List WorkspaceId) (s : WmState) : Type 0 where
  pub tail : WorkspaceId
  pub is_last : last ids ≡ some tail
  pub empty : is_workspace_empty s tail ≡ true

grow_tail-EndsEmpty :
    (m : MonitorId) (r : Rect) (ids : List WorkspaceId) (s : WmState)
    → is_empty ids ≡ false
    → EndsEmpty (grow_tail m r ids s).0 (grow_tail m r ids s).1
unfolding grow_tail allocate_workspace_id is_workspace_empty
grow_tail-EndsEmpty m r ids s h =
    let (t, e) = last-of ids h in
    elim (Bool-cases (is_workspace_empty s t)) [
      | inl b ↦ rw (e, grow_tail, b) (record { tail = t; is_last = e; empty = b })
      | inr b ↦
          rw (e, grow_tail, b)
            (record {
              tail = s.runtime.next_workspace_id;
              is_last = last-snoc ids s.runtime.next_workspace_id;
              empty =
                  rw
                    (get-insert_self s.runtime.next_workspace_id
                      (empty_workspace s.runtime.next_workspace_id m (length ids) r) s.workspaces)
                    refl;
            })
    ]

pub settle-EndsEmpty :
    (set : WorkspaceSet) (s : WmState) → EndsEmpty (settle set s).0 (settle set s).1
unfolding settle
settle-EndsEmpty set s =
    let seeded =
      seed-nonempty set.monitor_id (monitor_region s set.monitor_id) set.ordered_workspace_ids s in
    let (t, e) = last-of _ seeded in
    grow_tail-EndsEmpty _ _ _ _ (
      trim_tail-nonempty _ _
        (rw e (collapse-nonempty (some set.active_workspace_id) t _ _ (contains-tail _ t e))))

publish-IsNormal :
    (set_id : WorkspaceSetId) (m : MonitorId) (l : Option WorkspaceId) (ids : List WorkspaceId)
    (s : WmState) (set : WorkspaceSet)
    → EndsEmpty ids s
    → get set_id s.workspace_sets ≡ some set
    → IsNormal set_id m (publish set_id m l ids s)
unfolding publish is_workspace_empty
publish-IsNormal set_id m l ids s set h e =
    let active =
      keep_active ids (map_some (get set_id s.workspace_sets) (λ set. set.active_workspace_id)) in
    record {
      set = record set {
        ordered_workspace_ids = ids;
        active_workspace_id = active;
        last_non_empty_workspace_id = l;
      };
      tail = h.tail;
      found = get-adjust_self set_id _ s.workspace_sets e;
      tail_last = h.is_last;
      tail_empty = h.empty;
      active_listed = keep_active-listed ids _ h.tail h.is_last;
      focus_agrees = get-insert_self m active s.focus.active_workspace_by_monitor;
    }

pub normalize_set-IsNormal :
    (set_id : WorkspaceSetId) (set set' : WorkspaceSet) (s : WmState)
    → get set_id (settle set s).1.workspace_sets ≡ some set'
    → IsNormal set_id set.monitor_id (normalize_set set_id set s)
unfolding normalize_set
normalize_set-IsNormal set_id set set' s e =
    let h = settle-EndsEmpty set s in
    let region = monitor_region s set.monitor_id in
    let (ids, t) = settle set s in
    publish-IsNormal set_id set.monitor_id (last_non_empty ids t) ids
      (renumber set.monitor_id region (last ids) 0 ids t) set'
      (record {
        tail = h.tail;
        is_last = h.is_last;
        empty = renumber-empty set.monitor_id region (last ids) 0 ids t h.tail ∙ h.empty;
      })
      (ap (get set_id) (renumber-sets set.monitor_id region (last ids) 0 ids t) ∙ e)
