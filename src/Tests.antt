-- ===== src/Tests.antt =====
-- Runs of the model at inputs that can be followed in the source, and the theorems there.
mod Scene
mod Witnesses
mod Shapes
mod Runs
mod Layouts
mod Devices
mod Keyboard
