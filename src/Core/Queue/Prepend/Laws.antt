-- ===== src/Core/Queue/Prepend/Laws.antt =====
-- Theorems about `prepend` and `retry` of packages/core/src/queue.ts.
use mathlib.Core.List.Perm
use mathlib.Core.List.{perm_middle, perm_append_comm, reverse_perm}
use spectro.Prelude.{
  ℕ, suc, ◌+◌, ◌≤◌, ◌<◌, ◌≡◌, inl, inr, refl, ap, subst, filter, true, false, Option, some, List,
  [], ◌∷◌, ◌++◌, map, reverse, Perm, append_assoc, append-nil, arith, leb, ltb, lt→ltb, length,
  length-append, All, All-reverse, Bool-cases,
}
use spectro.Protocol.Event.{ByteLength, QueuedEventRecord}
use spectro.Core.Queue.Defs.{EventQueue, max_queued_bytes, max_delivery_attempts, is_full}
use spectro.Core.Queue.Evict.{IsCounted, IsValid, contents}
use spectro.Core.Queue.Enqueue.{room, entry_of}
use spectro.Core.Queue.Prepend.{
  clear_room, PrependResult, FailedDrainResult, prepend_from, prepend, attempted, sort_attempts,
  retry,
}
use spectro.Core.Queue.Prepend.Loop.{Clears-small, Clears-large, clear_room-Clears}

-- The queue and the result after `rs` are put before the queue `q`, `before` being dropped already:
-- nothing is lost, and every dropped record is counted once.
abbrev pub Prepends :
    ByteLength
    → List QueuedEventRecord
    → EventQueue
    → PrependResult
    → Option (EventQueue × PrependResult)
    → Type 0
Prepends bytes rs q before o =
    (q' : EventQueue) × (after : PrependResult) × (o ≡ some (q', after))
    × IsValid bytes q'
    × Perm (contents q'.events ++ after.dropped_records)
        (rs ++ (contents q.events ++ before.dropped_records))
    × (after.dropped + length before.dropped_records
        ≡ before.dropped + length after.dropped_records)

module _ (bytes : ByteLength) where
  unshift-IsValid :
      (r : QueuedEventRecord) (q : EventQueue)
      → IsCounted bytes q
      → is_full q (bytes.event r.event) ≡ false
      → IsValid bytes
          (record { events = entry_of bytes r ∷ q.events; bytes = q.bytes + bytes.event r.event })
  unfolding is_full
  unshift-IsValid r q v h = record {
    counted = omega (arith, v.counted);
    sized = (refl, v.sized);
    few = ground arith;
    small = ground arith;
  }

  prepend_from-Prepends :
      (rs : List QueuedEventRecord) (q : EventQueue) (before : PrependResult)
      → IsValid bytes q
      → All (λ r. bytes.event r.event ≤ max_queued_bytes) rs
      → Prepends bytes rs q before (prepend_from bytes rs q before)
  unfolding prepend_from
  prepend_from-Prepends [] q before v a = (q, before, refl, v, Perm.refl _, refl)
  prepend_from-Prepends (r ∷ rs) q before v (small, a) =
      let (q', d', rs', e, m, fits) =
        Clears-small bytes _ q before.dropped before.dropped_records _
          (clear_room-Clears bytes (suc (length q.events)) r (bytes.event r.event) q before.dropped
            before.dropped_records (omega arith) (record { counted = v.counted; sized = v.sized }))
          small in
      let within : ltb max_queued_bytes (bytes.event r.event) ≡ false = ground arith in
      let (q'', after, returned, w, p, n) =
        prepend_from-Prepends rs _ _ (unshift-IsValid r q' m.counted fits) a in
      rw (e, within, prepend_from)
        (
          q'',
          after,
          returned,
          w,
          Perm.trans p (Perm.trans (perm_middle rs _) (Perm.cons r (Perm.append_left rs m.perm))),
          omega (arith, n, m.number),
        )

  -- From a queue that satisfies the invariant, `prepend` of events of at most 4 MiB returns and
  -- keeps the invariant; the entries left with the dropped records are the old entries and the
  -- records given, and `dropped` counts the dropped records.
  pub prepend_returns :
      (rs : List QueuedEventRecord) (q : EventQueue)
      → IsValid bytes q
      → All (λ r. bytes.event r.event ≤ max_queued_bytes) rs
      → (q' : EventQueue) × (result : PrependResult) × (prepend bytes rs q ≡ some (q', result))
        × IsValid bytes q'
        × Perm (contents q'.events ++ result.dropped_records) (rs ++ contents q.events)
        × (result.dropped ≡ length result.dropped_records)
  unfolding prepend
  prepend_returns rs q v a =
      let (q', after, e, w, p, n) =
        prepend_from-Prepends (reverse rs) q (record { dropped = 0; dropped_records = [] }) v
          (All-reverse _ rs a) in
      (
        q',
        after,
        e,
        w,
        Perm.trans p (rw append-nil (Perm.append_right (contents q.events) (reverse_perm rs))),
        omega (arith, n),
      )

  prepend_over :
      (r : QueuedEventRecord) (q q' : EventQueue) (d' : ℕ) (rs' : List QueuedEventRecord)
      → clear_room (suc (length q.events)) r (bytes.event r.event) q 0 [] ≡ room q' d' rs'
      → ltb max_queued_bytes (bytes.event r.event) ≡ true
      → prepend bytes (r ∷ []) q
        ≡ some (q', record { dropped = d' + 1; dropped_records = rs' ++ r ∷ [] })
  unfolding prepend prepend_from
  prepend_over r q q' d' rs' e over = rw (e, over, prepend_from) refl

  -- An event of more than 4 MiB empties the queue, and `prepend` counts it twice.
  pub prepend_oversized :
      (r : QueuedEventRecord) (q : EventQueue)
      → IsValid bytes q
      → max_queued_bytes < bytes.event r.event
      → (q' : EventQueue) × (result : PrependResult) × (prepend bytes (r ∷ []) q
          ≡ some (q', result))
        × (q'.events ≡ [])
        × (result.dropped ≡ length q.events + 2)
  prepend_oversized r q v big =
      let (q', d', rs', e, gone, n) =
        Clears-large bytes _ q 0 [] _
          (clear_room-Clears bytes (suc (length q.events)) r (bytes.event r.event) q 0 []
            (omega arith) (record { counted = v.counted; sized = v.sized }))
          big in
      let over : ltb max_queued_bytes (bytes.event r.event) ≡ true = lt→ltb _ _ big in
      (
        q',
        record { dropped = d' + 1; dropped_records = rs' ++ r ∷ [] },
        prepend_over r q _ _ _ e over,
        gone,
        omega (arith, n),
      )

-- The records that are sent again have had at most seven attempts.
sort_attempts_lem :
    (rs : List QueuedEventRecord)
    → All (λ r. r.attempts < max_delivery_attempts) (sort_attempts rs).0
      × All (λ r. max_delivery_attempts ≤ r.attempts) (sort_attempts rs).1
      × Perm ((sort_attempts rs).0 ++ (sort_attempts rs).1) (map attempted rs)
unfolding sort_attempts
sort_attempts_lem [] = (tt, tt, Perm.refl [])
sort_attempts_lem (r ∷ rs) =
    let (young, old, p) = sort_attempts_lem rs in
    elim (Bool-cases (leb max_delivery_attempts (r.attempts + 1))) [
      | inl last ↦
          rw last
            (young, (ground arith, old), Perm.trans (perm_middle _ _) (Perm.cons (attempted r) p))
      | inr more ↦ rw more ((ground arith, young), old, Perm.cons (attempted r) p)
    ]

-- With one attempt more, the records with fewer than eight attempts, and those with eight or more.
abbrev pub young_of : List QueuedEventRecord → List QueuedEventRecord
young_of rs = filter (λ r. ltb r.attempts 8) (map attempted rs)

abbrev pub old_of : List QueuedEventRecord → List QueuedEventRecord
old_of rs = filter (λ r. leb 8 r.attempts) (map attempted rs)

sort_attempts-parts :
    (rs : List QueuedEventRecord)
    → ((sort_attempts rs).0 ≡ young_of rs) × ((sort_attempts rs).1 ≡ old_of rs)
unfolding sort_attempts
sort_attempts-parts [] = (refl, refl)
sort_attempts-parts (r ∷ rs) =
    let (young, old) = sort_attempts-parts rs in
    elim (Bool-cases (leb 8 (r.attempts + 1))) [
      | inl last ↦
          let passed : ltb (r.attempts + 1) 8 ≡ false = ground arith in
          rw (last, passed) (young, ap (λ l. attempted r ∷ l) old)
      | inr more ↦
          let under : ltb (r.attempts + 1) 8 ≡ true = ground arith in
          rw (more, under) (ap (λ l. attempted r ∷ l) young, old)
    ]

sort_attempts-small :
    (bytes : ByteLength) (rs : List QueuedEventRecord)
    → All (λ r. bytes.event r.event ≤ max_queued_bytes) rs
    → All (λ r. bytes.event r.event ≤ max_queued_bytes) (sort_attempts rs).0
unfolding sort_attempts
sort_attempts-small bytes [] h = tt
sort_attempts-small bytes (r ∷ rs) (h, a) = ground (arith, sort_attempts-small bytes rs a)

perm_left_comm {ℓ} : {A : Type ℓ} (xs ys zs : List A) → Perm (xs ++ (ys ++ zs)) (ys ++ (xs ++ zs))
perm_left_comm xs ys zs =
    rw (← append_assoc xs ys zs, ← append_assoc ys xs zs)
      (Perm.append_right zs (perm_append_comm xs ys))

module _ (bytes : ByteLength) where
  pub retry_returns :
      (rs : List QueuedEventRecord) (q : EventQueue)
      → IsValid bytes q
      → All (λ r. bytes.event r.event ≤ max_queued_bytes) rs
      → (q' : EventQueue) × (result : FailedDrainResult) × (retry bytes rs q ≡ some (q', result))
        × IsValid bytes q'
        × All (λ r. r.attempts < max_delivery_attempts) result.retried
        × Perm
            (contents q'.events ++ result.dropped_records)
            (map attempted rs ++ contents q.events)
        × (result.retried ≡ young_of rs)
        × ((evicted : List QueuedEventRecord) × (result.dropped_records ≡ old_of rs ++ evicted)
            × Perm (contents q'.events ++ evicted) (young_of rs ++ contents q.events))
        × (result.dropped ≡ length result.dropped_records)
  unfolding retry
  retry_returns rs q v a =
      let (young, old, sorted) = sort_attempts_lem rs in
      let (same_young, same_old) = sort_attempts-parts rs in
      let (q', after, e, w, p, n) =
        prepend_returns bytes (sort_attempts rs).0 q v (sort_attempts-small bytes rs a) in
      (
        q',
        record {
          retried = (sort_attempts rs).0;
          dropped = length (sort_attempts rs).1 + after.dropped;
          dropped_records = (sort_attempts rs).1 ++ after.dropped_records;
        },
        rw (e, retry) refl,
        w,
        young,
        Perm.trans (perm_left_comm (contents q'.events) (sort_attempts rs).1 after.dropped_records)
            (Perm.trans (Perm.append_left (sort_attempts rs).1 p) (
              rw (← append_assoc) (
                Perm.append_right (contents q.events) (
                  Perm.trans (perm_append_comm (sort_attempts rs).1 (sort_attempts rs).0)
                    sorted)))),
        same_young,
        (
          after.dropped_records,
          ap (λ l. l ++ after.dropped_records) same_old,
          subst (λ l. Perm (contents q'.events ++ after.dropped_records) (l ++ contents q.events))
              same_young p,
        ),
        omega (arith, n, length-append (sort_attempts rs).1 after.dropped_records),
      )
