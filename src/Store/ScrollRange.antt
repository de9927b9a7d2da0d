-- ===== src/Store/ScrollRange.antt =====
-- The range of the scroll offset in crates/wm-core/src/state_store.rs.
use flowtile_wm.Base.{
  ℤ, pos, ◌≤ℤ◌, ◌≡◌, some, ok, err, Result-cases, Ensures, Ensures-bind, Ensures-ok, Option-cases,
  inl, inr, arith,
}
use flowtile_wm.Base.Map.{get, get-adjust_self}
use flowtile_wm.Base.Words.{max_i32, clamp_i32, clamp_i32_bounds, sat_add_i32}
use flowtile_wm.Domain.{WorkspaceId, WmState, Workspace}
use flowtile_wm.Store.Methods.{pure, reads, modify, CoreError, unknown_workspace, ◌>>=◌}
use flowtile_wm.Store.Widths.{max_scroll_offset}
use flowtile_wm.Store.Focus.{apply_scroll_delta, clamp_scroll_offset}

-- In the state after, the offset of the workspace lies between 0 and the largest offset that the
-- state before allows.
pub record IsScrolled (id : WorkspaceId) (s s' : WmState) : Type 0 where
  pub workspace : Workspace
  pub max_offset : ℤ
  pub found : get id s'.workspaces ≡ some workspace
  pub largest : max_scroll_offset s id ≡ ok max_offset
  pub from_zero : pos 0 ≤ℤ workspace.strip.scroll_offset
  pub to_largest : workspace.strip.scroll_offset ≤ℤ max_offset

max_i32-nonneg : (z : ℤ) → pos 0 ≤ℤ max_i32 z (pos 0)
unfolding max_i32
max_i32-nonneg z = ground arith

max_scroll_offset-nonneg :
    (s : WmState) (id : WorkspaceId) → Ensures (λ m. pos 0 ≤ℤ m) (max_scroll_offset s id)
unfolding max_scroll_offset
max_scroll_offset-nonneg s id = search (Ensures-bind, Ensures-ok, max_i32-nonneg) depth 6

-- A scroll by any distance that succeeds leaves the offset of the workspace between 0 and the
-- largest offset that the state before allows.
pub apply_scroll_delta-IsScrolled :
    (id : WorkspaceId) (delta : ℤ) (s : WmState)
    → (apply_scroll_delta id delta s).0 ≡ ok tt
    → IsScrolled id s (apply_scroll_delta id delta s).1
unfolding apply_scroll_delta ◌>>=◌ reads modify pure
apply_scroll_delta-IsScrolled id delta s h = elim (Result-cases (max_scroll_offset s id)) [
  | inr (x, e) ↦ refused (simp e at h)
  | inl (m, e) ↦ elim (Option-cases (get id s.workspaces)) [
    | inl g ↦ missing (simp (e, g) at h)
    | inr (w, g) ↦
        let (a, b) =
          clamp_i32_bounds (sat_add_i32 w.strip.scroll_offset delta) (pos 0) m
            ((max_scroll_offset-nonneg s id).holds m e) in
        rw (e, g)
          (record {
            workspace = record w {
              strip = record w.strip {
                scroll_offset = clamp_i32 (sat_add_i32 w.strip.scroll_offset delta) (pos 0) m;
              };
            };
            max_offset = m;
            found = get-adjust_self id _ s.workspaces g;
            largest = e;
            from_zero = a;
            to_largest = b;
          })
  ]
]
  where
    refused : {x : CoreError} → err x ≡ ok tt → IsScrolled id s (apply_scroll_delta id delta s).1
    refused k = cc

    missing : err (unknown_workspace id) ≡ ok tt → IsScrolled id s (apply_scroll_delta id delta s).1
    missing k = cc

-- A clamp that succeeds leaves the offset of the workspace between 0 and the largest offset that
-- the state before allows.
pub clamp_scroll_offset-IsScrolled :
    (id : WorkspaceId) (s : WmState)
    → (clamp_scroll_offset id s).0 ≡ ok tt
    → IsScrolled id s (clamp_scroll_offset id s).1
unfolding clamp_scroll_offset ◌>>=◌ reads modify pure
clamp_scroll_offset-IsScrolled id s h = elim (Result-cases (max_scroll_offset s id)) [
  | inr (x, e) ↦ refused (simp e at h)
  | inl (m, e) ↦ elim (Option-cases (get id s.workspaces)) [
    | inl g ↦ missing (simp (e, g) at h)
    | inr (w, g) ↦
        let (a, b) =
          clamp_i32_bounds w.strip.scroll_offset (pos 0) m
            ((max_scroll_offset-nonneg s id).holds m e) in
        rw (e, g)
          (record {
            workspace = record w {
              strip = record w.strip { scroll_offset = clamp_i32 w.strip.scroll_offset (pos 0) m };
            };
            max_offset = m;
            found = get-adjust_self id _ s.workspaces g;
            largest = e;
            from_zero = a;
            to_largest = b;
          })
  ]
]
  where
    refused : {x : CoreError} → err x ≡ ok tt → IsScrolled id s (clamp_scroll_offset id s).1
    refused k = cc

    missing : err (unknown_workspace id) ≡ ok tt → IsScrolled id s (clamp_scroll_offset id s).1
    missing k = cc
