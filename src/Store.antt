-- ===== src/Store.antt =====
-- The client storage: its state and effects, its operations by subject.
pub mod Defs
pub mod Groups
pub mod KeyGens
pub mod Requests
pub mod Nonces
pub mod Ensures
pub mod Leaves
pub mod Calls
pub mod Linking
pub mod Completeness
