-- ===== src/Core/Client/Flush.antt =====
-- `flush`, `flushOnce` and `restoreQueue` of packages/core/src/client.ts. A flush is three steps,
-- between which the client may capture events: the call, the drain once the persistence writes are
-- done, and the transport's answer.
pub mod Laws
use spectro.Prelude.{
  ℕ, ◌+◌, Bool, true, false, ◌&&◌, ◌||◌, Option, none, some, List, [], ◌∷◌, ◌++◌, map, ltb, leb,
  ◌==◌, if◌then◌else◌, length, filter, any, not, Text, text_eq,
}
use spectro.Protocol.Event.{
  DeliveryPriority, immediate, batch, is_immediate, QueuedEventRecord, max_envelope_bytes,
  max_event_bytes,
}
use spectro.Core.Queue.Defs.{EventQueue}
use spectro.Core.Queue.Enqueue.{restore}
use spectro.Core.Queue.Drain.{drain}
use spectro.Core.Queue.Prepend.{FailedDrainResult, retry}
use spectro.Core.Client.{
  FlushOptions, Client, Flight, idle, waiting, sending, Effect, report, immediate_event,
  transport_failure, remove, ClientError, entry_disappeared, stopped_retrying, send_failed,
  restored_only, Setting, persist, remove_persisted, immediate_ids, when, add_effects,
}

abbrev pub is_priority : DeliveryPriority → Option DeliveryPriority → Bool
is_priority p none = false
is_priority immediate (some immediate) = true
is_priority batch (some batch) = true
is_priority _ _ = false

abbrev pub keepalive_of : Option FlushOptions → Bool
keepalive_of none = false
keepalive_of (some o) = o.keepalive

abbrev pub priority_of : Option FlushOptions → Option DeliveryPriority
priority_of none = none
priority_of (some o) = o.priority

-- `mergeFlushOptions`
unfoldable pub merge_flush_options : Option FlushOptions → FlushOptions → FlushOptions
merge_flush_options current next = record {
  keepalive = keepalive_of current || next.keepalive;
  priority =
      if is_priority immediate (priority_of current) || is_priority immediate next.priority
      then some immediate
      else (if is_priority batch (priority_of current) || is_priority batch next.priority
          then some batch
          else none);
}

abbrev pub max_keepalive_envelope_bytes : ℕ
max_keepalive_envelope_bytes = 61440

pub record FlushResult : Type 0 where
  pub sent : ℕ
  pub remaining : ℕ

-- The transport's answer: `sent` with the number accepted, or an error.
pub data SendOutcome : Type 0 where
  sent : (accepted : ℕ) → SendOutcome
  failed : SendOutcome

-- `flush`: one flush is in flight at a time, and a call meanwhile is kept as a follow-up.
unfoldable pub flush : FlushOptions → Client → Client
flush options c = elim c.flight [
  | idle ↦ record c { flight = waiting options }
  | waiting _ ↦ record c { follow_up = some (merge_flush_options c.follow_up options) }
  | sending _ _ ↦ record c { follow_up = some (merge_flush_options c.follow_up options) }
]

-- The flush in flight settles; a follow-up starts unless the queue is empty.
unfoldable pub settle : FlushResult → Client → Client
settle result c = elim c.follow_up [
  | none ↦ record c { flight = idle }
  | some options ↦
      if result.remaining == 0
      then record c { flight = idle; follow_up = none }
      else record c { flight = waiting options; follow_up = none }
]

module _ (s : Setting) where
  abbrev pub maximum_bytes : FlushOptions → ℕ
  maximum_bytes o = if o.keepalive then max_keepalive_envelope_bytes else max_envelope_bytes

  abbrev pub drained :
      FlushOptions → Client → List QueuedEventRecord × EventQueue → Option FlushResult × Client
  drained options c ([], q) =
      let result : FlushResult = record { sent = 0; remaining = length q.events } in
      (some result, settle result (record c { queue = q }))
  drained options c (r ∷ rs, q) = (none, record c { queue = q; flight = sending options (r ∷ rs) })

  -- `flushOnce` up to the call of the transport, at the time `now`.
  unfoldable pub start_flush : (now : ℕ) → FlushOptions → Client → Option FlushResult × Client
  start_flush now options c =
      drained options c (drain s.bytes 100 (maximum_bytes options) options.priority now c.queue)

  -- The effects of a failed attempt.
  abbrev pub failing : FlushOptions → Client → EventQueue → FailedDrainResult → Client
  failing options c q failure =
      add_effects
        (when (ltb 0 failure.dropped) (report (stopped_retrying failure.dropped) ∷ [])
          ++ (persist s (filter (λ r. is_immediate r.priority) failure.retried)
              ++ (remove_persisted s (immediate_ids failure.dropped_records)
                  ++ transport_failure options ∷ report send_failed ∷ [])))
        (record c { queue = q })

  abbrev pub settled : ℕ → Client → Option FlushResult × Client
  settled n c =
      let result : FlushResult = record { sent = n; remaining = length c.queue.events } in
      (some result, settle result c)

  -- `flushOnce` from the transport's answer on; `none` is an error thrown by `retry`, which rejects
  -- the flush and starts no follow-up. The removal of sent records, which the code awaits, is an effect.
  unfoldable pub finish_flush :
      FlushOptions → List QueuedEventRecord → SendOutcome → Client → Option FlushResult × Client
  finish_flush options records (sent accepted) c =
      settled accepted (add_effects (remove_persisted s (map (λ r. r.event.id) records)) c)
  finish_flush options records failed c = elim (retry s.bytes records c.queue) [
    | none ↦ (none, record c { flight = idle })
    | some (q, failure) ↦ settled 0 (failing options c q failure)
  ]

  abbrev pub is_valid_record : QueuedEventRecord → Bool
  is_valid_record r = s.validate r.event && leb (s.bytes.event r.event) max_event_bytes

  abbrev has_id : Text → List QueuedEventRecord → Bool
  has_id id rs = any (λ r. text_eq r.event.id id) rs

  abbrev pub restoring :
      List QueuedEventRecord → List QueuedEventRecord → Client → Option ℕ × EventQueue → Client
  restoring records valid c (none, q) =
      add_effects (report entry_disappeared ∷ []) (record c { queue = q })
  restoring records valid c (some n, q) =
      add_effects
        (when (ltb n (length valid)) (report (restored_only n (length valid)) ∷ [])
          ++ (when (ltb (length valid) (length records)) (
                remove (map (λ r. r.event.id) (filter (λ r. not (has_id r.event.id valid)) records))
                ∷ [])
              ++ when (any (λ r. is_immediate r.priority) valid) (immediate_event ∷ [])))
        (record c { queue = q })

  -- `restoreQueue` with what the durable queue has loaded.
  unfoldable pub restore_queue : List QueuedEventRecord → Client → Client
  restore_queue records c =
      let valid = filter is_valid_record records in
      restoring records valid c (restore s.bytes valid c.queue)
