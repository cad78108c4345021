-- ===== src/Core/Queue/Enqueue.antt =====
-- `enqueue` and `restore` of packages/core/src/queue.ts.
pub mod Loop
pub mod Evictions
pub mod Laws
pub mod Restore
use spectro.Prelude.{
  ℕ, zero, suc, ◌+◌, Bool, true, false, Option, none, some, List, [], ◌∷◌, ◌++◌, if◌then◌else◌,
  length, find_index, any, text_eq,
}
use spectro.Protocol.Event.{
  ByteLength, DeliveryPriority, immediate, batch, is_batch, QueuedEventRecord,
}
use spectro.Core.Queue.Defs.{QueueEntry, EventQueue, is_full, remove_at}

-- How the eviction loop ends; `threw` is the error of `removeAt`, `stalled` the end of the fuel.
pub data Room : Type 0 where
  room : EventQueue → (dropped : ℕ) → List QueuedEventRecord → Room
  refused : EventQueue → (dropped : ℕ) → List QueuedEventRecord → Room
  threw : EventQueue → Room
  stalled : Room

abbrev pub find_batch : List QueueEntry → Option ℕ
find_batch events = find_index (λ e. is_batch e.priority) events

-- `none` is an index below 0.
unfoldable pub index_unless : Option ℕ → DeliveryPriority → Option ℕ
index_unless (some i) priority = some i
index_unless none immediate = some 0
index_unless none batch = none

-- The `while` loop of `enqueue`.
unfoldable pub make_room : ℕ → DeliveryPriority → ℕ → EventQueue → ℕ → List QueuedEventRecord → Room
make_room zero priority size q dropped records = stalled
make_room (suc fuel) priority size q dropped records = elim (is_full q size) [
  | false ↦ room q dropped records
  | true ↦ elim (index_unless (find_batch q.events) priority) [
    | none ↦ refused q dropped records
    | some i ↦ elim (remove_at q i) [
      | none ↦ threw q
      | some (evicted, rest) ↦
          make_room fuel priority size rest (dropped + 1) (records ++ evicted.queued ∷ [])
    ]
  ]
]

pub record EnqueueResult : Type 0 where
  pub accepted : Bool
  pub dropped : ℕ
  pub dropped_records : List QueuedEventRecord

abbrev pub append : QueueEntry → EventQueue → EventQueue
append e q = record { events = q.events ++ e ∷ []; bytes = q.bytes + e.bytes }

-- `none`: an error is thrown (or, `stalled`, the loop does not end).
abbrev pub finish : QueueEntry → EventQueue → Room → Option EnqueueResult × EventQueue
finish e q (room q' dropped records) =
    (some (record { accepted = true; dropped = dropped; dropped_records = records }), append e q')
finish e q (refused q' dropped records) =
    (some (record { accepted = false; dropped = dropped + 1; dropped_records = records }), q')
finish e q (threw q') = (none, q')
finish e q stalled = (none, q)

module _ (bytes : ByteLength) where
  abbrev pub entry_of : QueuedEventRecord → QueueEntry
  entry_of r = record { queued = r; bytes = bytes.event r.event }

  unfoldable pub enqueue : QueuedEventRecord → EventQueue → Option EnqueueResult × EventQueue
  enqueue r q =
      finish (entry_of r) q
        (make_room (suc (length q.events)) r.priority (bytes.event r.event) q 0 [])

  -- The loop of `restore`; an error of `enqueue` ends it.
  unfoldable pub restore_from : List QueuedEventRecord → ℕ → EventQueue → Option ℕ × EventQueue
  restore_from [] n q = (some n, q)
  restore_from (r ∷ rs) n q = elim (any (λ e. text_eq e.event.id r.event.id) q.events) [
    | true ↦ restore_from rs n q
    | false ↦ elim (enqueue r q).0 [
      | none ↦ (none, (enqueue r q).1)
      | some result ↦ restore_from rs (if result.accepted then n + 1 else n) (enqueue r q).1
    ]
  ]

  unfoldable pub restore : List QueuedEventRecord → EventQueue → Option ℕ × EventQueue
  restore records q = restore_from records 0 q
