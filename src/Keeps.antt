-- ===== src/Keeps.antt =====
-- Invariants of the methods of `StateStore`: a rule for each way to build an action, to be applied
-- by `search`. A method keeps a property whether it returns a value or an error.
mod Rules
pub use Rules.*
