-- ===== src/Frame.antt =====
-- The relation between the states before and after an event, for the reducer in crates/wm-
-- core/src/state_store.rs: the monitors, the version, the boot mode, the capture policy, the
-- diagnostics, and which monitor a workspace set belongs to.
mod Relation
mod Edits
mod Handlers
pub mod Dispatch
pub mod Reports
pub mod Normal
pub use Relation.*
pub use Edits.*
pub use Handlers.*
