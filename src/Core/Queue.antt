-- ===== src/Core/Queue.antt =====
-- packages/core/src/queue.ts: the in-memory event queue, an operation to a module. `Evict` has what
-- the eviction loops share.
pub mod Defs
pub mod Evict
pub mod Enqueue
pub mod Select
pub mod Drain
pub mod Prepend
