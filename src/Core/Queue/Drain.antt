-- ===== src/Core/Queue/Drain.antt =====
-- `drain` of packages/core/src/queue.ts.
pub mod Indices
pub mod Candidates
pub mod Choice
pub mod Laws
use spectro.Prelude.{
  ℕ, ◌-◌, true, false, not, Option, none, some, List, [], ◌∷◌, ◌++◌, map, ltb, leb, length,
  get_elem?, has, filter_index, indices_from,
}
use spectro.Protocol.Event.{
  SpectroEvent, ByteLength, DeliveryPriority, immediate, QueuedEventRecord,
}
use spectro.Core.Queue.Defs.{QueueEntry, EventQueue}
use spectro.Core.Queue.Select.{select_immediate}

abbrev pub candidates : List QueueEntry → Option DeliveryPriority → List ℕ
candidates events (some immediate) = select_immediate events
candidates events _ = indices_from 0 events

module _ (bytes : ByteLength) (events : List QueueEntry) (limit maximum now : ℕ) where
  -- The loop over the candidates; `items` is the trial envelope.
  unfoldable pub choose : List ℕ → List ℕ → List SpectroEvent → List ℕ
  choose [] chosen items = chosen
  choose (i ∷ is) chosen items = elim (leb limit (length chosen)) [
    | true ↦ chosen
    | false ↦ elim (get_elem? events i) [
      | none ↦ choose is chosen items
      | some e ↦
          elim (ltb maximum
            (bytes.envelope (record { sent_at = now; items = items ++ e.event ∷ [] }))) [
              | true ↦ choose is chosen items
              | false ↦ choose is (chosen ++ i ∷ []) (items ++ e.event ∷ [])
            ]
    ]
  ]

unfoldable pub subtract_bytes : ℕ → List QueueEntry → ℕ
subtract_bytes total [] = total
subtract_bytes total (e ∷ es) = subtract_bytes (total - e.bytes) es

-- `now` is the `Date.now()` of the trial envelope.
unfoldable pub drain :
    ByteLength
    → (limit maximum : ℕ) → Option DeliveryPriority
    → (now : ℕ) → EventQueue
    → List QueuedEventRecord × EventQueue
drain bytes limit maximum priority now q =
    let indices = choose bytes q.events limit maximum now (candidates q.events priority) [] [] in
    let removed = filter_index (λ i. has i indices) 0 q.events in
    let retained = filter_index (λ i. not (has i indices)) 0 q.events in
    (
      map (λ e. e.queued) removed,
      record { events = retained; bytes = subtract_bytes q.bytes removed },
    )
