-- ===== src/Core/Queue/Prepend/Loop.antt =====
-- The inner loop of `prepend` in packages/core/src/queue.ts.
use spectro.Prelude.{
  ℕ, zero, suc, ◌+◌, ◌<◌, ◌≤◌, ◌≡◌, ◌⊎◌, inl, inr, refl, ap, false, none, List, [], ◌∷◌, ◌++◌,
  arith, length, or_else, ◌==◌, ==_iff, nil_of_length, Bool-cases, Option-cases,
}
use spectro.Protocol.Event.{ByteLength, is_batch, QueuedEventRecord}
use spectro.Core.Queue.Defs.{QueueEntry, EventQueue, max_queued_bytes, is_full, remove_at}
use spectro.Core.Queue.Evict.{IsCounted, Evicts, pluck-find_index, remove_at-Evicts}
use spectro.Core.Queue.Enqueue.{Room, room, find_batch}
use spectro.Core.Queue.Enqueue.Loop.{
  Moves, Moves-refl, Moves-Evicts, remove_at-none, full_empty, pluck_head,
}
use spectro.Core.Queue.Prepend.{clear_room}

-- The loop ends with room for the event; or, for an event of more than 4 MiB, with an empty queue
-- after counting every entry and the record.
abbrev pub Clears : ByteLength → ℕ → EventQueue → ℕ → List QueuedEventRecord → Room → Type 0
Clears bytes size q d rs (room q' d' rs') =
    (Moves bytes q d rs q' d' rs' × (is_full q' size ≡ false))
    ⊎ ((q'.events ≡ [])
        × (max_queued_bytes < size)
        × IsCounted bytes q'
        × (d' ≡ d + length q.events + 1))
Clears bytes size q d rs _ = ⊥

-- The queue has an entry to evict at the index that `prepend` computes.
remove_at-total :
    (q : EventQueue)
    → (length q.events == 0) ≡ false
    → remove_at q (or_else (find_batch q.events) 0) ≡ none
    → ⊥
remove_at-total q some_events h = elim (Option-cases (find_batch q.events)) [
  | inl gone ↦
      let e = pluck_head q.events (rw gone at (remove_at-none q _ h)) in ground (arith, ap length e)
  | inr (i, found) ↦
      let (r, taken, _) = pluck-find_index (λ x. is_batch x.priority) q.events found in
      cc (taken, rw found at (remove_at-none q _ h))
]

module _ (bytes : ByteLength) where
  Clears-Evicts :
      (size : ℕ) {q q' : EventQueue} {e : QueueEntry} (d : ℕ) (rs : List QueuedEventRecord)
      (m : Room)
      → Evicts bytes q e q'
      → Clears bytes size q' (d + 1) (rs ++ e.queued ∷ []) m
      → Clears bytes size q d rs m
  Clears-Evicts size d rs (room q'' d' rs') v (inl (m, fits)) = inl (Moves-Evicts bytes v m, fits)
  Clears-Evicts size d rs (room q'' d' rs') v (inr (e, big, c, n)) =
      inr (e, big, c, omega (arith, v.shorter))
  Clears-Evicts size d rs _ v h = h

  pub clear_room-Clears :
      (fuel : ℕ) (r : QueuedEventRecord) (size : ℕ) (q : EventQueue) (d : ℕ)
      (rs : List QueuedEventRecord)
      → length q.events < fuel
      → IsCounted bytes q
      → Clears bytes size q d rs (clear_room fuel r size q d rs)
  unfolding clear_room
  clear_room-Clears zero r size q d rs h v = elim h [ ]
  clear_room-Clears (suc fuel) r size q d rs h v = elim (Bool-cases (is_full q size)) [
    | inr fits ↦ rw (fits, clear_room) (inl (Moves-refl bytes q d rs v, fits))
    | inl full ↦ elim (Bool-cases (length q.events == 0)) [
      | inl none_left ↦
          let e = nil_of_length q.events ((==_iff _ 0).0 none_left) in
          rw (full, none_left, clear_room)
            (inr (e, full_empty bytes q size v e full, v, omega (arith, ap length e)))
      | inr some_left ↦ elim (Option-cases (remove_at q (or_else (find_batch q.events) 0))) [
        | inl gone ↦ absurd (remove_at-total q some_left gone)
        | inr ((e, q'), taken) ↦
            let w = remove_at-Evicts bytes q _ e q' v taken in
            rw (full, some_left, taken, clear_room)
              (Clears-Evicts size d rs _ w (
                clear_room-Clears fuel r size q' (d + 1) (rs ++ e.queued ∷ [])
                  (omega (arith, w.shorter)) w.counted))
      ]
    ]
  ]

  pub Clears-small :
      (size : ℕ) (q : EventQueue) (d : ℕ) (rs : List QueuedEventRecord) (m : Room)
      → Clears bytes size q d rs m
      → size ≤ max_queued_bytes
      → (q' : EventQueue) × (d' : ℕ) × (rs' : List QueuedEventRecord) × (m ≡ room q' d' rs')
        × Moves bytes q d rs q' d' rs'
        × (is_full q' size ≡ false)
  Clears-small size q d rs (room q' d' rs') (inl (m, fits)) h = (q', d', rs', refl, m, fits)
  Clears-small size q d rs (room q' d' rs') (inr (_, big, _, _)) h = absurd (omega arith)
  Clears-small size q d rs _ c h = absurd c

  pub Clears-large :
      (size : ℕ) (q : EventQueue) (d : ℕ) (rs : List QueuedEventRecord) (m : Room)
      → Clears bytes size q d rs m
      → max_queued_bytes < size
      → (q' : EventQueue) × (d' : ℕ) × (rs' : List QueuedEventRecord) × (m ≡ room q' d' rs')
        × (q'.events ≡ [])
        × (d' ≡ d + length q.events + 1)
  unfolding is_full
  Clears-large size q d rs (room q' d' rs') (inl (m, fits)) h = absurd (ground arith)
  Clears-large size q d rs (room q' d' rs') (inr (e, big, _, n)) h = (q', d', rs', refl, e, n)
  Clears-large size q d rs _ c h = absurd c
