-- ===== src/Core/Queue/Defs.antt =====
-- The state of `EventQueue` in packages/core/src/queue.ts, its limits, and the removal of an entry.
use mathlib.Core.Option
use spectro.Prelude.{ℕ, ◌+◌, ◌-◌, Bool, ◌||◌, Option, List, [], ltb, leb, length, pluck}
use spectro.Protocol.Event.{QueuedEventRecord}

abbrev pub max_queued_events : ℕ
max_queued_events = 500

abbrev pub max_queued_bytes : ℕ
max_queued_bytes = 4194304

abbrev pub max_delivery_attempts : ℕ
max_delivery_attempts = 8

pub record QueueEntry : Type 0 where
  pub queued : QueuedEventRecord
  pub open queued use *
  pub bytes : ℕ

pub record EventQueue : Type 0 where
  pub events : List QueueEntry
  pub bytes : ℕ

abbrev pub empty : EventQueue
empty = record { events = []; bytes = 0 }

-- The test of the eviction loops, for an event of `size` bytes.
unfoldable pub is_full : EventQueue → ℕ → Bool
is_full q size = leb max_queued_events (length q.events) || ltb max_queued_bytes (q.bytes + size)

-- `none`: the error 'Queue entry disappeared'.
unfoldable pub remove_at : EventQueue → ℕ → Option (QueueEntry × EventQueue)
remove_at q i =
    Option.map (λ r. (r.0, record { events = r.1; bytes = q.bytes - r.0.bytes })) (pluck q.events i)
