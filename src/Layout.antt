-- ===== src/Layout.antt =====
-- crates/layout-engine/src/lib.rs: the geometry of a workspace.
mod Insets
mod Columns
mod Workspace
pub mod Origin
pub mod Complete
pub mod Inside
pub mod Shares
unfoldable pub use Insets.*
unfoldable pub use Columns.*
unfoldable pub use Workspace.*
