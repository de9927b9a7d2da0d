-- ===== src/Hotkeys.antt =====
-- The hotkeys of apps/core-daemon/src/hotkeys: the commands, the low-level keyboard hook and the
-- triggers.
pub mod Keys
pub mod Commands
pub mod Names
pub mod State
pub mod Hook
pub mod Masks
pub mod Held
pub mod Presses
pub mod Releases
pub mod Settles
pub mod Chord
pub mod Fires
pub mod Runtime
pub mod Loops
pub mod Repeats
pub mod Replays
pub mod Trigger
pub mod Triggers
