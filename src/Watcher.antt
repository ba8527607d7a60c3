-- ===== src/Watcher.antt =====
-- validator/src/watcher: the stream of blocks and the logs of their events.
pub mod Bloom
pub mod Blocks
pub mod Pending
pub mod Chain
pub mod Stream
pub mod Start
pub mod Updates
pub mod Waiting
pub mod Logs
pub mod Sorting
pub mod Coverage
pub mod Warp
pub mod Halving
pub mod Loop
pub mod Turns
pub mod Transitions
pub mod Throttling
