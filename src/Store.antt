-- ===== src/Store.antt =====
-- crates/wm-core/src/state_store.rs and its children: the reducer of domain events.
mod Methods
mod Reading
mod Queries
mod Monitors
mod Widths
mod Resize
mod Focus
mod Membership
mod Overview
mod Discovery
mod Workspaces
mod Moves
mod Modes
mod WidthCommands
mod Navigation
mod Diagnostics
mod Dispatch
pub mod ResizeRange
pub mod TabCycle
pub mod Sorting
pub mod CycleSteps
pub mod Shown
pub mod Tabs
pub mod Selections
pub mod Placement
pub mod ScrollRange
pub mod FocusAgrees
pub mod WidthAgreement
unfoldable pub use Methods.*
unfoldable pub use Queries.*
unfoldable pub use Monitors.*
unfoldable pub use Widths.*
unfoldable pub use Resize.*
unfoldable pub use Focus.*
unfoldable pub use Membership.*
unfoldable pub use Discovery.*
unfoldable pub use Workspaces.*
unfoldable pub use Moves.*
unfoldable pub use Modes.*
unfoldable pub use WidthCommands.*
unfoldable pub use Overview.*
unfoldable pub use Navigation.*
unfoldable pub use Diagnostics.*
unfoldable pub use Dispatch.*
