-- ===== src/Core/Queue/Prepend.antt =====
-- `prepend` and `retry` of packages/core/src/queue.ts.
pub mod Loop
pub mod Laws
use spectro.Prelude.{
  ℕ, zero, suc, ◌+◌, true, false, Option, none, some, List, [], ◌∷◌, ◌++◌, reverse, ltb, leb,
  if◌then◌else◌, length, or_else, ◌==◌,
}
use spectro.Protocol.Event.{ByteLength, QueuedEventRecord}
use spectro.Core.Queue.Defs.{
  EventQueue, max_queued_bytes, max_delivery_attempts, is_full, remove_at,
}
use spectro.Core.Queue.Enqueue.{Room, room, refused, threw, stalled, find_batch, entry_of}

-- The inner `while` loop of `prepend` for the record `r` of `size` bytes.
unfoldable pub clear_room :
    ℕ → QueuedEventRecord → ℕ → EventQueue → ℕ → List QueuedEventRecord → Room
clear_room zero r size q dropped records = stalled
clear_room (suc fuel) r size q dropped records = elim (is_full q size) [
  | false ↦ room q dropped records
  | true ↦ elim (length q.events == 0) [
    | true ↦ room q (dropped + 1) (records ++ r ∷ [])
    | false ↦ elim (remove_at q (or_else (find_batch q.events) 0)) [
      | none ↦ threw q
      | some (evicted, rest) ↦
          clear_room fuel r size rest (dropped + 1) (records ++ evicted.queued ∷ [])
    ]
  ]
]

pub record PrependResult : Type 0 where
  pub dropped : ℕ
  pub dropped_records : List QueuedEventRecord

abbrev pub attempted : QueuedEventRecord → QueuedEventRecord
attempted r = record r { attempts = r.attempts + 1 }

-- The first loop of `retry`: the records to send again, and those that are given up.
unfoldable pub sort_attempts :
    List QueuedEventRecord → List QueuedEventRecord × List QueuedEventRecord
sort_attempts [] = ([], [])
sort_attempts (r ∷ rs) =
    let (retried, given_up) = sort_attempts rs in
    if leb max_delivery_attempts (r.attempts + 1)
    then (retried, attempted r ∷ given_up)
    else (attempted r ∷ retried, given_up)

pub record FailedDrainResult : Type 0 where
  pub retried : List QueuedEventRecord
  pub dropped : ℕ
  pub dropped_records : List QueuedEventRecord

module _ (bytes : ByteLength) where
  -- The body of the loop after its inner loop.
  abbrev pub unshift :
      QueuedEventRecord → EventQueue → ℕ → List QueuedEventRecord → EventQueue × PrependResult
  unshift r q dropped records =
      if ltb max_queued_bytes (bytes.event r.event)
      then (q, record { dropped = dropped + 1; dropped_records = records ++ r ∷ [] })
      else (
        record { events = entry_of bytes r ∷ q.events; bytes = q.bytes + bytes.event r.event },
        record { dropped = dropped; dropped_records = records },
      )

  -- The loop of `prepend` over the records, the last one first; `none` is an error thrown.
  unfoldable pub prepend_from :
      List QueuedEventRecord → EventQueue → PrependResult → Option (EventQueue × PrependResult)
  prepend_from [] q result = some (q, result)
  prepend_from (r ∷ rs) q result =
      elim (clear_room (suc (length q.events)) r (bytes.event r.event) q result.dropped
        result.dropped_records) [
          | room q' dropped records ↦
              prepend_from rs (unshift r q' dropped records).0 (unshift r q' dropped records).1
          | refused q' dropped records ↦ none
          | threw q' ↦ none
          | stalled ↦ none
        ]

  unfoldable pub prepend : List QueuedEventRecord → EventQueue → Option (EventQueue × PrependResult)
  prepend records q =
      prepend_from (reverse records) q (record { dropped = 0; dropped_records = [] })

  unfoldable pub retry :
      List QueuedEventRecord → EventQueue → Option (EventQueue × FailedDrainResult)
  retry records q = elim (prepend (sort_attempts records).0 q) [
    | none ↦ none
    | some (q', prepended) ↦ some (
      q',
      record {
        retried = (sort_attempts records).0;
        dropped = length (sort_attempts records).1 + prepended.dropped;
        dropped_records = (sort_attempts records).1 ++ prepended.dropped_records;
      },
    )
  ]
