-- ===== src/Protocol.antt =====
-- The wire protocol, server/src/protocol.
pub mod Basic
pub mod Metadata
pub mod Payloads
pub mod Validators
pub mod Sound
