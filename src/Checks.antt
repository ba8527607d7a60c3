-- ===== src/Checks.antt =====
-- validator/src/consensus/verify/safeTx/checks and validator/src/service/checks.ts: which transactions
-- of a Safe the validator attests.
pub mod Defs
pub mod Multisend
pub mod Allowed
pub mod Soundness
pub mod Accepted
pub mod Decoding
