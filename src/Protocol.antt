-- ===== src/Protocol.antt =====
-- The queue of actions between the state machine and the chain.
pub mod Queue
pub mod Table
pub mod Rows
pub mod Base
pub mod Liveness
pub mod Transactions
pub mod Gaps
