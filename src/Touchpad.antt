-- ===== src/Touchpad.antt =====
-- The touchpad gestures of apps/core-daemon/src/touchpad.
pub mod Gestures
pub mod Swipe
pub mod Frames
pub mod Assessment
pub mod Direction
pub mod Sessions
pub mod Inserts
pub mod Ready
