-- ===== src/Client.antt =====
-- The two clients of the client storage: key generation and signing.
pub mod KeyGen
pub mod Nonces
pub mod Shares
pub mod Signing
pub mod Burning
pub mod Reading
pub mod Keeping
pub mod Persistence
pub mod Reuse
