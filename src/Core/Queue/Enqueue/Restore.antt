-- ===== src/Core/Queue/Enqueue/Restore.antt =====
-- When `enqueue` of packages/core/src/queue.ts returns, and what `restore` leaves.
use mathlib.Core.Logic.Or
use mathlib.Core.List.Perm
use mathlib.Core.List.Nodup
use mathlib.Core.HLevel.{⊥_prop}
use mathlib.Core.List.{
  Mem, Nodup, Nodup-cons, mem-cons, not-mem-nil, perm_append_singleton, map-append,
}
use spectro.Prelude.{
  ℕ, ◌+◌, ◌≤◌, ◌≡◌, ◌⊎◌, inl, inr, refl, Bool, true, false, Option, none, some, List, [], ◌∷◌, ◌++◌,
  map, Perm, arith, length, All, Bool-cases, any, Text, text_eq, text_eq_iff,
}
use spectro.Protocol.Event.{ByteLength, batch, QueuedEventRecord}
use spectro.Core.Queue.Defs.{QueueEntry, EventQueue, max_queued_bytes}
use spectro.Core.Queue.Enqueue.{EnqueueResult, enqueue, restore_from, restore}
use spectro.Core.Queue.Enqueue.Laws.{Reports, Outcome, enqueue-Outcome}
use spectro.Core.Queue.Evict.{IsValid, contents}

-- The event ids in the queue, in order.
abbrev pub ids : List QueueEntry → List Text
ids es = map (λ r. r.event.id) (contents es)

module _ (bytes : ByteLength) where
  Outcome-returns :
      (r : QueuedEventRecord) (q : EventQueue) (o : Option EnqueueResult × EventQueue)
      → Outcome bytes r q o
      → bytes.event r.event ≤ max_queued_bytes
      → (result : EnqueueResult) × (o.0 ≡ some result)
        × ((r.priority ≡ batch) ⊎ (result.accepted ≡ true))
  Outcome-returns r q (none, q') h fits = absurd (omega (arith, h.1))
  Outcome-returns r q (some result, q') h fits =
      let kept : (r.priority ≡ batch) ⊎ (result.accepted ≡ true) =
        elim (Bool-cases result.accepted) [ inl y ↦ inr y | inr n ↦ inl ((rw n at h.1).2) ] in
      (result, refl, kept)

  Outcome-IsValid :
      (r : QueuedEventRecord) (q : EventQueue) (o : Option EnqueueResult × EventQueue)
      → Outcome bytes r q o
      → IsValid bytes o.1
  Outcome-IsValid r q (none, q') h = h.0
  Outcome-IsValid r q (some result, q') h = h.0

  -- On a queue that satisfies the invariant, `enqueue` returns for every event of at most 4 MiB,
  -- and it accepts the event unless the event has batch priority.
  pub enqueue_returns :
      (r : QueuedEventRecord) (q : EventQueue)
      → IsValid bytes q
      → bytes.event r.event ≤ max_queued_bytes
      → (result : EnqueueResult) × ((enqueue bytes r q).0 ≡ some result)
        × ((r.priority ≡ batch) ⊎ (result.accepted ≡ true))
  enqueue_returns r q v fits = Outcome-returns r q _ (enqueue-Outcome bytes r q v) fits

not_mem_ids :
    (es : List QueueEntry) (id : Text)
    → any (λ e. text_eq e.event.id id) es ≡ false
    → ¬ Mem id (ids es)
not_mem_ids [] id h m = not-mem-nil m
not_mem_ids (e ∷ es) id h m =
    Or.elim ⊥_prop (mem-cons.0 m) (λ same. ground (arith, text_eq_iff e.event.id id))
      (not_mem_ids es id (ground arith))

Nodup-left :
    (xs ys : List QueuedEventRecord) (zs : List QueuedEventRecord)
    → Perm (xs ++ ys) zs
    → Nodup (map (λ r. r.event.id) zs)
    → Nodup (map (λ r. r.event.id) xs)
Nodup-left xs ys zs p n =
    Nodup.of_append_left (map (λ r. r.event.id) ys)
      (rw map-append at (Perm.nodup (Perm.symm (Perm.map (λ r. r.event.id) p)) n))

Nodup-add :
    (r : QueuedEventRecord) (xs : List QueuedEventRecord)
    → ¬ Mem r.event.id (map (λ s. s.event.id) xs)
    → Nodup (map (λ s. s.event.id) xs)
    → Nodup (map (λ s. s.event.id) (xs ++ r ∷ []))
Nodup-add r xs new n =
    Perm.nodup (Perm.symm (Perm.map (λ s. s.event.id) (perm_append_singleton r xs)))
      (Nodup-cons.1 (new, n))

module _ (bytes : ByteLength) where
  Reports-Nodup :
      (r : QueuedEventRecord) (q q' : EventQueue) (d : ℕ) (rs : List QueuedEventRecord) (b : Bool)
      → Reports r q q' d rs b
      → ¬ Mem r.event.id (ids q.events)
      → Nodup (ids q.events)
      → Nodup (ids q'.events)
  Reports-Nodup r q q' d rs true h new n =
      Nodup-left (contents q'.events) rs _ h.0 (Nodup-add r (contents q.events) new n)
  Reports-Nodup r q q' d rs false h new n = Nodup-left (contents q'.events) rs _ h.0 n

  -- The queue after an `enqueue` that returns.
  enqueue-Nodup :
      (r : QueuedEventRecord) (q : EventQueue) (o : Option EnqueueResult × EventQueue)
      {result : EnqueueResult}
      → Outcome bytes r q o
      → o.0 ≡ some result
      → ¬ Mem r.event.id (ids q.events)
      → Nodup (ids q.events)
      → Nodup (ids o.1.events)
  enqueue-Nodup r q (none, q') h e new n = cc
  enqueue-Nodup r q (some result, q') h e new n =
      Reports-Nodup r q q' result.dropped result.dropped_records result.accepted h.1 new n

  abbrev pub Restores : Option ℕ × EventQueue → ℕ → Type 0
  Restores o most =
      (m : ℕ) × (o.0 ≡ some m) × (m ≤ most) × IsValid bytes o.1 × Nodup (ids o.1.events)

  restore_from-Restores :
      (rs : List QueuedEventRecord) (n most : ℕ) (q : EventQueue)
      → n + length rs ≤ most
      → IsValid bytes q
      → Nodup (ids q.events)
      → All (λ r. bytes.event r.event ≤ max_queued_bytes) rs
      → Restores (restore_from bytes rs n q) most
  unfolding restore_from
  restore_from-Restores [] n most q h v u a = (n, refl, omega arith, v, u)
  restore_from-Restores (r ∷ rs) n most q h v u (fits, a) =
      elim (Bool-cases (any (λ e. text_eq e.event.id r.event.id) q.events)) [
        | inl known ↦
            rw (known, restore_from) (restore_from-Restores rs n most q (omega arith) v u a)
        | inr new ↦
            let o = enqueue-Outcome bytes r q v in
            let (result, returned, _) = enqueue_returns bytes r q v fits in
            rw (new, returned, restore_from)
              (restore_from-Restores rs _ most (enqueue bytes r q).1 (ground arith)
                (Outcome-IsValid bytes r q _ o)
                (enqueue-Nodup r q _ o returned (not_mem_ids q.events r.event.id new) u) a)
      ]

  -- From a queue that satisfies the invariant and holds no id twice, `restore` of events of at most
  -- 4 MiB returns a number of at most their number, and the queue that it leaves satisfies the
  -- invariant and holds no id twice.
  pub restore_returns :
      (rs : List QueuedEventRecord) (q : EventQueue)
      → IsValid bytes q
      → Nodup (ids q.events)
      → All (λ r. bytes.event r.event ≤ max_queued_bytes) rs
      → Restores (restore bytes rs q) (length rs)
  unfolding restore
  restore_returns rs q v u a = restore_from-Restores rs 0 (length rs) q (omega arith) v u a

  restore_from-IsValid :
      (rs : List QueuedEventRecord) (n : ℕ) (q : EventQueue)
      → IsValid bytes q
      → All (λ r. bytes.event r.event ≤ max_queued_bytes) rs
      → (m : ℕ) × ((restore_from bytes rs n q).0 ≡ some m)
        × IsValid bytes (restore_from bytes rs n q).1
  unfolding restore_from
  restore_from-IsValid [] n q v a = (n, refl, v)
  restore_from-IsValid (r ∷ rs) n q v (fits, a) =
      elim (Bool-cases (any (λ e. text_eq e.event.id r.event.id) q.events)) [
        | inl known ↦ rw (known, restore_from) (restore_from-IsValid rs n q v a)
        | inr new ↦
            let (result, returned, _) = enqueue_returns bytes r q v fits in
            rw (new, returned, restore_from)
              (restore_from-IsValid rs _ (enqueue bytes r q).1
                (Outcome-IsValid bytes r q _ (enqueue-Outcome bytes r q v)) a)
      ]

  pub restore-IsValid :
      (rs : List QueuedEventRecord) (q : EventQueue)
      → IsValid bytes q
      → All (λ r. bytes.event r.event ≤ max_queued_bytes) rs
      → (m : ℕ) × ((restore bytes rs q).0 ≡ some m) × IsValid bytes (restore bytes rs q).1
  unfolding restore
  restore-IsValid rs q v a = restore_from-IsValid rs 0 q v a
