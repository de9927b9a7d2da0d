-- ===== src/Apply.antt =====
-- What the runtime applies to the windows of the platform, and how it checks the outcome:
-- crates/windows-adapter/src/lib.rs and crates/wm-core/src/runtime.
pub mod Platform
pub mod Diff
pub mod Policy
pub mod Validation
pub mod Counter
pub mod Unwind
