-- ===== src/Signing.antt =====
-- The handlers of the signing ceremony (validator/src/machine/signing).
pub mod Status
pub mod Request
pub mod Collect
pub mod Timeouts
pub mod Expiry
pub mod Chunks
