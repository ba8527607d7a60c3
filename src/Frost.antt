-- ===== src/Frost.antt =====
-- The FROST mathematics of the validator (validator/src/frost).
pub mod Math
pub mod Vss
