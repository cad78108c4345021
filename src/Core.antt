-- ===== src/Core.antt =====
-- packages/core: the event queue, the normalisation of properties, the event context, the client.
pub mod Queue
pub mod Normalize
pub mod Context
pub mod Client
