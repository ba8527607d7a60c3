-- ===== src/State.antt =====
-- The state of the machine: differences, the storage that they are applied to, and the local copy of a
-- transition.
pub mod Diff
pub mod Local
pub mod Refine
