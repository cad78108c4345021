-- ===== src/Protocol.antt =====
-- packages/protocol: the events, their contexts and payloads, and the envelope.
pub mod Json
pub mod Context
pub mod Event
pub mod Depth
