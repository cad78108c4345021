-- ===== src/Core/Queue/Enqueue/Laws.antt =====
-- Theorems about `enqueue` and `restore` of packages/core/src/queue.ts.
use mathlib.Core.List.Perm
use mathlib.Core.List.{perm_append_singleton}
use spectro.Prelude.{
  ℕ, suc, ◌+◌, ◌<◌, ◌≡◌, refl, sym, subst, ap, Bool, true, false, Option, none, some, List, [], ◌∷◌,
  ◌++◌, Perm, append-nil, arith, length, length-append, All-append,
}
use spectro.Protocol.Event.{ByteLength, immediate, batch, QueuedEventRecord}
use spectro.Core.Queue.Defs.{QueueEntry, EventQueue, max_queued_bytes, is_full}
use spectro.Core.Queue.Enqueue.{
  Room, room, refused, threw, stalled, find_batch, EnqueueResult, append, finish, entry_of, enqueue,
}
use spectro.Core.Queue.Enqueue.Loop.{Ends, make_room-Ends}
use spectro.Core.Queue.Enqueue.Evictions.{
  IsOver, IsWithin, HaveNoBatch, Evictions, Clears, make_room-Clears,
}
use spectro.Core.Queue.Evict.{IsCounted, IsValid, contents, total}

total-append : (xs : List QueueEntry) (e : QueueEntry) → total (xs ++ e ∷ []) ≡ total xs + e.bytes
total-append [] e = omega arith
total-append (x ∷ xs) e = omega (arith, total-append xs e)

contents-append :
    (xs : List QueueEntry) (e : QueueEntry) → contents (xs ++ e ∷ []) ≡ contents xs ++ e.queued ∷ []
contents-append [] e = refl
contents-append (x ∷ xs) e = rw (contents-append xs e)

-- What `enqueue` reports, against the queue before and after.
abbrev pub Reports :
    QueuedEventRecord
    → EventQueue
    → EventQueue
    → (dropped : ℕ) → List QueuedEventRecord
    → Bool
    → Type 0
Reports r q q' dropped records true =
    Perm (contents q'.events ++ records) (contents q.events ++ r ∷ [])
    × (dropped ≡ length records)
    × ((kept : List QueuedEventRecord) × (contents q'.events ≡ kept ++ r ∷ []))
Reports r q q' dropped records false =
    Perm (contents q'.events ++ records) (contents q.events)
    × (dropped ≡ suc (length records))
    × (r.priority ≡ batch)
    × (find_batch q'.events ≡ none)

-- What `enqueue` has removed for the event, and whether it then fits.
abbrev pub Selects :
    (size : ℕ)
    → QueuedEventRecord
    → QueueEntry
    → EventQueue
    → EventQueue
    → List QueuedEventRecord
    → Bool
    → Type 0
Selects size r e q q' records true =
    (kept : List QueueEntry) × Evictions r.priority size q.events records kept
    × IsWithin size kept
    × (q'.events ≡ kept ++ e ∷ [])
Selects size r e q q' records false =
    Evictions r.priority size q.events records q'.events
    × IsOver size q'.events
    × HaveNoBatch q'.events

abbrev pub Outcome :
    ByteLength → QueuedEventRecord → EventQueue → (Option EnqueueResult × EventQueue) → Type 0
Outcome bytes r q (none, q') =
    IsValid bytes q' × (max_queued_bytes < bytes.event r.event) × (r.priority ≡ immediate)
Outcome bytes r q (some result, q') =
    IsValid bytes q'
    × Reports r q q' result.dropped result.dropped_records result.accepted
    × Selects (bytes.event r.event) r (entry_of bytes r) q q' result.dropped_records result.accepted

perm_add {ℓ} :
    {A : Type ℓ} (a : A) (xs ys rs : List A)
    → Perm (xs ++ rs) (ys ++ [])
    → Perm ((xs ++ a ∷ []) ++ rs) (ys ++ a ∷ [])
perm_add a xs ys rs h =
    Perm.trans (Perm.append_right rs (perm_append_singleton a xs))
      (Perm.trans (Perm.cons a (rw append-nil at h)) (Perm.symm (perm_append_singleton a ys)))

module _ (bytes : ByteLength) where
  append-IsValid :
      (r : QueuedEventRecord) (q : EventQueue)
      → IsCounted bytes q
      → is_full q (bytes.event r.event) ≡ false
      → IsValid bytes (append (entry_of bytes r) q)
  unfolding is_full
  append-IsValid r q v h = record {
    counted = rw (total-append q.events (entry_of bytes r)) (omega (arith, v.counted));
    sized = All-append _ q.events _ v.sized (refl, tt);
    few = ground (arith, length-append q.events (entry_of bytes r ∷ []));
    small = ground arith;
  }

  finish-Outcome :
      (r : QueuedEventRecord) (q : EventQueue) (m : Room)
      → IsValid bytes q
      → Ends bytes r.priority (bytes.event r.event) q 0 [] m
      → Clears r.priority (bytes.event r.event) q.events [] m
      → Outcome bytes r q (finish (entry_of bytes r) q m)
  finish-Outcome r q (room q' d rs) v (m, fits) (new, same, gone, within) = (
    append-IsValid r q' m.counted fits,
    (
      rw (contents-append q'.events (entry_of bytes r)) (perm_add r _ _ rs m.perm),
      omega (arith, m.number),
      (contents q'.events, contents-append q'.events (entry_of bytes r)),
    ),
    (
      q'.events,
      subst (λ x. Evictions r.priority (bytes.event r.event) q.events x q'.events) (sym same) gone,
      within,
      refl,
    ),
  )
  finish-Outcome r q (refused q' d rs) v (m, full, low, gone) (new, same, out, over, high) = (
    record {
      counted = m.counted.counted;
      sized = m.counted.sized;
      few = omega (arith, m.fewer, v.few);
      small = omega (arith, m.lighter, v.small);
    },
    (rw append-nil at m.perm, omega (arith, m.number), low, gone),
    (
      subst (λ x. Evictions r.priority (bytes.event r.event) q.events x q'.events) (sym same) out,
      over,
      high,
    ),
  )
  finish-Outcome r q (threw q') v (w, e, big, high) _ = (
    record {
      counted = w.counted;
      sized = w.sized;
      few = omega (arith, ap length e);
      small = omega (arith, w.counted, ap total e);
    },
    big,
    high,
  )
  finish-Outcome r q stalled v h _ = absurd h

  -- On every queue that satisfies the invariant, `enqueue` keeps the invariant: the byte counter is
  -- the sum of the entries' sizes, and the queue holds at most 500 events and 4 MiB. It removes an
  -- entry only while there are 500 entries or the event would take them over 4 MiB: the oldest batch
  -- entry, or, for an immediate event and where no batch entry is left, the oldest entry. The removed
  -- entries are the dropped records, in that order. If it accepts the event, the event fits and is the
  -- last entry behind those that are left, and `dropped` counts the dropped records. If it refuses the
  -- event, the event is a batch event that still does not fit, only immediate entries are left, and
  -- `dropped` counts the refused event too. It throws only on an immediate event of more than 4 MiB.
  pub enqueue-Outcome :
      (r : QueuedEventRecord) (q : EventQueue)
      → IsValid bytes q
      → Outcome bytes r q (enqueue bytes r q)
  unfolding enqueue
  enqueue-Outcome r q v =
      finish-Outcome r q _ v
        (make_room-Ends bytes (suc (length q.events)) r.priority (bytes.event r.event) q 0 []
          (omega arith) (record { counted = v.counted; sized = v.sized }))
        (make_room-Clears bytes (suc (length q.events)) r.priority (bytes.event r.event) q 0 []
          (record { counted = v.counted; sized = v.sized }))
