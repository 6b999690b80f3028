-- ===== src/Protocol.antt =====
-- protocol/message.go and protocol/pool.go: the wire format.
pub mod Word
pub mod Header
pub mod Metadata
pub mod Message
