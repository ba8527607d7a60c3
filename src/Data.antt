-- ===== src/Data.antt =====
-- The data that the components exchange.
pub mod Frost
pub mod Packet
pub mod Action
pub mod Event
pub mod State
pub mod External
