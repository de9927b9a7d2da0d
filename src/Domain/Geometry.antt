-- ===== src/Domain/Geometry.antt =====
-- crates/domain/src/ids.rs and geometry.rs. An identifier is the `u64` that it wraps.
use flowtile_wm.Base.{ℕ, ℤ, pos}

abbrev pub MonitorId : Type 0
MonitorId = ℕ

abbrev pub WorkspaceSetId : Type 0
WorkspaceSetId = ℕ

abbrev pub WorkspaceId : Type 0
WorkspaceId = ℕ

abbrev pub ColumnId : Type 0
ColumnId = ℕ

abbrev pub WindowId : Type 0
WindowId = ℕ

abbrev pub CorrelationId : Type 0
CorrelationId = ℕ

pub record Size : Type 0 where
  pub width : ℕ
  pub height : ℕ

pub record Rect : Type 0 where
  pub x : ℤ
  pub y : ℤ
  pub width : ℕ
  pub height : ℕ

-- `Rect::default()`.
abbrev pub default_rect : Rect
default_rect = record { x = pos 0; y = pos 0; width = 0; height = 0 }
