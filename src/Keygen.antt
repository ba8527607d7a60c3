-- ===== src/Keygen.antt =====
-- The handlers of the key generation ceremony (validator/src/machine/keygen).
pub mod Group
pub mod Quorum
pub mod Trigger
pub mod Shares
pub mod Complaints
pub mod Confirmed
pub mod Timeouts
