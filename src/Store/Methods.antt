-- ===== src/Store/Methods.antt =====
-- The methods of `StateStore` that take `&mut self` and return `Result<_, CoreError>`. What a
-- method wrote before it returned an error stays written, so the state comes back in both cases.
use flowtile_wm.Base.{Bool, Option, none, some, String, Result, ok, err, ok_or, if◌then◌else◌}
use flowtile_wm.Base.Map.{get}
use flowtile_wm.Domain.{
  MonitorId, WorkspaceId, ColumnId, WindowId, WmState, Workspace, Column, WindowNode,
}
use flowtile_wm.Layout.{LayoutError}

-- `CoreError` of crates/wm-core/src/lib.rs; `layout_failed` is `Layout`.
pub data CoreError : Type 0 where
  unknown_monitor : MonitorId → CoreError
  unknown_workspace : WorkspaceId → CoreError
  unknown_column : ColumnId → CoreError
  unknown_window : WindowId → CoreError
  no_active_workspace : MonitorId → CoreError
  invalid_event : String → CoreError
  layout_failed : LayoutError → CoreError

abbrev pub Outcome : Type 0 → Type 0
Outcome A = Result CoreError A

abbrev pub Action : Type 0 → Type 0
Action A = WmState → Outcome A × WmState

module _ {A : Type 0} where
  unfoldable pub pure : A → Action A
  pure a s = (ok a, s)

  unfoldable pub raise : CoreError → Action A
  raise e s = (err e, s)

  -- A method that takes `&self`: it returns a result, or a plain value.
  unfoldable pub reads : (WmState → Outcome A) → Action A
  reads f s = (f s, s)

  unfoldable pub asks : (WmState → A) → Action A
  asks f s = (ok (f s), s)

  -- A method of `WmState` that returns a value and never fails.
  unfoldable pub returning : (WmState → A × WmState) → Action A
  returning f s = let (a, s') = f s in (ok a, s')

  -- `match option { None => …, Some(a) => … }`.
  unfoldable pub choose : {B : Type 0} → Option B → Action A → (B → Action A) → Action A
  choose none m f = m
  choose (some b) m f = f b

unfoldable pub modify : (WmState → WmState) → Action (Unit {0})
modify f s = (ok tt, f s)

module _ {A B : Type 0} where
  abbrev pub resume : Outcome A → (A → Action B) → Action B
  resume (ok a) f s = f a s
  resume (err e) f s = (err e, s)

  infixl 10 ◌>>=◌ ◌>>◌
  unfoldable pub ◌>>=◌ : Action A → (A → Action B) → Action B
  unfolding pure raise reads asks returning choose modify
  ◌>>=◌ m f s = let (r, s') = m s in resume r f s'

  abbrev pub ◌>>◌ : Action A → Action B → Action B
  m >> k = m >>= λ _. k

-- `if !test { return Err(e); }`.
abbrev pub require : Bool → CoreError → Action (Unit {0})
require test e = if test then pure tt else raise e

-- `get(&id).ok_or(…)?` on the maps of the state.
abbrev pub workspace_or_err : WmState → WorkspaceId → Outcome Workspace
workspace_or_err s id = ok_or (get id s.workspaces) (unknown_workspace id)

abbrev pub column_or_err : WmState → ColumnId → Outcome Column
column_or_err s id = ok_or (get id s.layout.columns) (unknown_column id)

abbrev pub window_or_err : WmState → WindowId → Outcome WindowNode
window_or_err s id = ok_or (get id s.windows) (unknown_window id)

abbrev pub require_workspace : WorkspaceId → Action Workspace
require_workspace id = reads λ s. workspace_or_err s id

abbrev pub require_column : ColumnId → Action Column
require_column id = reads λ s. column_or_err s id

abbrev pub require_window : WindowId → Action WindowNode
require_window id = reads λ s. window_or_err s id

-- `if let Some(a) = option { … }`.
abbrev pub if_some : {B : Type 0} → Option B → (B → Action (Unit {0})) → Action (Unit {0})
if_some option f = choose option (pure tt) f
