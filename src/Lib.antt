-- ===== src/Lib.antt =====
-- FlowtileWM, a tiling window manager: its state, its layout engine and its reducer.
--
-- The program keeps one `WmState` and changes it only through `StateStore::dispatch`, which applies
-- a domain event, raises the version of the state, and recomputes the layout of the workspace that
-- the event affected. Platform observations and user commands both arrive as such events.
--
-- Domain (crates/domain/src): the identifiers, rectangles, enumerations, records and configuration
-- of model.rs (Geometry, Modes, Entities, Config), `WmState` with its allocation of identifiers and
-- queries (State), `normalize_workspace_set` with a function for each of its passages, `add_monitor`
-- and `ensure_tail_workspace` (Normalize), and the names, payloads and envelopes of events.rs (Events,
-- Payloads).
--
-- Layout (crates/layout-engine/src/lib.rs): the rectangles cut out of a work area (Insets), the
-- placement of the windows of a column (Columns) and `recompute_workspace` (Workspace).
--
-- Store (crates/wm-core/src/state_store.rs and its children): a method that takes `&mut self` is an
-- `Action`, a function from a state to a result and the state after it, so that what a method wrote
-- before an error stays written (Methods); a method that takes `&self` is a function into a result
-- (Reading, Queries, Monitors, Widths). The handlers stand in Discovery (windows appear, disappear and
-- get the focus), Navigation, Workspaces, Moves, Modes, WidthCommands and Overview; Focus and
-- Membership hold what they share; Resize holds the arithmetic of widths; Dispatch puts them together.
--
-- Hotkeys (apps/core-daemon/src/hotkeys/low_level.rs and control.rs): the commands with their texts
-- (Commands), the tests on keys and modifier masks (Keys), and the state machine of the low-level
-- keyboard hook (State, Hook), a function from a key event and a state to a decision and a state. The
-- constants of Win32 are the parameter `Win32`, and `IsWin32` states the documented values of some. The
-- static flag `SUPER_HELD` is a field of the state, and a `HashSet` is a list without order. Runtime
-- adds the loop that repeats a command and the keys that a replay sends, as effects, and
-- Trigger the parser of triggers (trigger.rs) on the code points of a text.
--
-- Metrics (crates/diagnostics/src/lib.rs): the atomic counters. A method is a list of atomic steps, so
-- that the steps of two threads may interleave.
--
-- Touchpad (apps/core-daemon/src/touchpad): gestures and bindings (Gestures), swipes (Swipe), the frames
-- of reports (Frames) and the assessment of the override (Assessment).
--
-- Apply (crates/windows-adapter/src/lib.rs, crates/wm-core/src/runtime): snapshots and operations
-- (Platform), apply_policy.rs (Policy), and the check after an apply of validation.rs (Validation), in
-- which the scans, the retry and the operations that the planner finds are an argument, `Cycle`.
--
-- Keeps has one rule for each way to build an action and says what an action preserves; Frame applies
-- it to every handler and says what a dispatch reports (Reports). Tests has small states and the theorems at them.
--
-- Numbers: unsigned words are natural numbers and `i32` is an integer over them, with `saturating_*`,
-- `as` casts and the wrap-around of plain arithmetic in a release build written out (Base.Words). A
-- `BTreeMap` is an association list in the order of its keys (Base.Map). Loops are structural recursion
-- over the lists they walk, so no fuel is used. `MaximizedState::Normal` is `restored`, and the payload
-- constructors drop the prefix `Cmd`.
--
-- Not modelled: the observation of the platform and the planner (crates/wm-core/src/runtime), the rules
-- and the configuration file (crates/config-rules), the daemon's processes, overview and raw input
-- (apps/core-daemon), the messages (crates/ipc) and the calls of Win32 (crates/windows-adapter). They
-- observe the platform, parse files through packages or call the system.
pub mod Base
pub mod Domain
pub mod Layout
pub mod Store
pub mod Keeps
pub mod Frame
pub mod Hotkeys
pub mod Metrics
pub mod Touchpad
pub mod Apply
pub mod Tests
