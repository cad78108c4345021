-- ===== src/Core/Queue/Enqueue/Evictions.antt =====
-- Which entries the eviction loop of `enqueue` in packages/core/src/queue.ts removes: the oldest batch
-- entry, or for an immediate event the oldest entry where no batch entry is left, and only while the
-- queue is over a limit.
use mathlib.Core.Option
use mathlib.Core.Option.{some-injective}
use spectro.Prelude.{
  ℕ, zero, suc, ◌+◌, ◌≤◌, ◌<◌, ◌≡◌, refl, sym, ap, ◌∙◌, subst, ◌⊎◌, inl, inr, true, false, none,
  some, List, [], ◌∷◌, ◌++◌, append_assoc, append-nil, arith, length, All, pluck, Bool-cases,
  Option-cases,
}
use spectro.Protocol.Event.{
  ByteLength, DeliveryPriority, immediate, batch, is_batch, QueuedEventRecord,
}
use spectro.Core.Queue.Defs.{QueueEntry, EventQueue, is_full, remove_at}
use spectro.Core.Queue.Enqueue.{
  Room, room, refused, threw, stalled, find_batch, index_unless, make_room,
}
use spectro.Core.Queue.Enqueue.Loop.{index_unless-none, index_unless-some}
use spectro.Core.Queue.Evict.{IsCounted, total, remove_at-Evicts}

-- With an event of `size` bytes more the entries are over 500 or over 4 MiB, or within both.
abbrev pub IsOver : ℕ → List QueueEntry → Type 0
IsOver size es = (500 ≤ length es) ⊎ (4194304 < total es + size)

abbrev pub IsWithin : ℕ → List QueueEntry → Type 0
IsWithin size es = (length es < 500) × (total es + size ≤ 4194304)

abbrev pub HaveNoBatch : List QueueEntry → Type 0
HaveNoBatch es = All (λ e. e.priority ≡ immediate) es

-- `e` between `before` and `after` is the entry to remove for an event of priority `p`.
abbrev IsVictim :
    DeliveryPriority → (before : List QueueEntry) → QueueEntry → (after : List QueueEntry) → Type 0
IsVictim p before e after =
    HaveNoBatch before
    × ((e.priority ≡ batch)
        ⊎ ((p ≡ immediate) × (before ≡ []) × (e.priority ≡ immediate) × HaveNoBatch after))

-- The records are those of the entries removed one after the other, each from a queue over a limit.
abbrev pub Evictions :
    DeliveryPriority → ℕ → List QueueEntry → List QueuedEventRecord → List QueueEntry → Type 0
Evictions p size es [] es' = es ≡ es'
Evictions p size es (r ∷ rs) es' =
    (before : List QueueEntry) × (e : QueueEntry) × (after : List QueueEntry) × (es
      ≡ before ++ e ∷ after)
    × IsOver size es
    × IsVictim p before e after
    × (e.queued ≡ r)
    × Evictions p size (before ++ after) rs es'

is_batch-not : (p : DeliveryPriority) → is_batch p ≡ false → p ≡ immediate
is_batch-not immediate h = refl
is_batch-not batch h = cc

is_batch-batch : (p : DeliveryPriority) → is_batch p ≡ true → p ≡ batch
is_batch-batch immediate h = cc
is_batch-batch batch h = refl

find_batch-none : (es : List QueueEntry) → find_batch es ≡ none → HaveNoBatch es
find_batch-none [] h = tt
find_batch-none (e ∷ es) h = elim (Bool-cases (is_batch e.priority)) [
  | inl low ↦ cc (rw low at h)
  | inr high ↦ (
    is_batch-not e.priority high,
    find_batch-none es ((Option.map-eq-none_iff _ _).0 (rw high at h)),
  )
]

-- What taking out the first batch entry does to the list.
abbrev Splits : List QueueEntry → (QueueEntry × List QueueEntry) → Type 0
Splits es r =
    (before after : List QueueEntry) × (es ≡ before ++ r.0 ∷ after)
    × (r.1 ≡ before ++ after)
    × HaveNoBatch before
    × (r.0.priority ≡ batch)

pluck-Splits :
    (es : List QueueEntry) (i : ℕ) {r : QueueEntry × List QueueEntry}
    → find_batch es ≡ some i
    → pluck es i ≡ some r
    → Splits es r
pluck-Splits [] i h taken = cc
pluck-Splits (x ∷ es) i {r} h taken = elim (Bool-cases (is_batch x.priority)) [
  | inl low ↦
      let first : 0 ≡ i = some-injective 0 i (rw low at h) in
      let same : (x, es) ≡ r = some-injective _ _ (rw (← first) at taken) in
      subst (Splits (x ∷ es)) same ([], es, refl, refl, tt, is_batch-batch x.priority low)
  | inr high ↦
      let (j, found, next) = (Option.map-eq-some_iff suc (find_batch es)).0 (rw high at h) in
      let (s, inner, same) = (Option.map-eq-some_iff _ (pluck es j)).0 (rw (← next) at taken) in
      let (before, after, was, left, none_before, low) = pluck-Splits es j found inner in
      subst (Splits (x ∷ es)) same (
        x ∷ before,
        after,
        ap (λ l. x ∷ l) was,
        ap (λ l. x ∷ l) left,
        (is_batch-not x.priority high, none_before),
        low,
      )
]

is_full-IsOver :
    (q : EventQueue) (size : ℕ)
    → q.bytes ≡ total q.events
    → is_full q size ≡ true
    → IsOver size q.events
unfolding is_full
is_full-IsOver q size counted h = ground (arith, counted)

is_full-IsWithin :
    (q : EventQueue) (size : ℕ)
    → q.bytes ≡ total q.events
    → is_full q size ≡ false
    → IsWithin size q.events
unfolding is_full
is_full-IsWithin q size counted h = (ground arith, ground (arith, counted))

-- The entry that the loop removes.
Removes : DeliveryPriority → List QueueEntry → QueueEntry → List QueueEntry → Type 0
Removes p es e es' =
    (before after : List QueueEntry) × (es ≡ before ++ e ∷ after)
    × (es' ≡ before ++ after)
    × IsVictim p before e after

head-Removes :
    (p : DeliveryPriority) (es : List QueueEntry) {r : QueueEntry × List QueueEntry}
    → p ≡ immediate
    → HaveNoBatch es
    → pluck es 0 ≡ some r
    → Removes p es r.0 r.1
unfolding Removes
head-Removes p [] urgent h taken = cc
head-Removes p (e ∷ es) {r} urgent (high, rest) taken =
    let same : (e, es) ≡ r = some-injective _ _ taken in
    subst (λ x. Removes p (e ∷ es) x.0 x.1) same
      ([], es, refl, refl, (tt, inr (urgent, refl, high, rest)))

chosen-Removes :
    (p : DeliveryPriority) (q q' : EventQueue) (i : ℕ) (e : QueueEntry)
    → index_unless (find_batch q.events) p ≡ some i
    → remove_at q i ≡ some (e, q')
    → Removes p q.events e q'.events
unfolding Removes remove_at
chosen-Removes p q q' i e found taken =
    let (r, plucked, same) = (Option.map-eq-some_iff _ (pluck q.events i)).0 taken in
    let moved : Removes p q.events r.0 r.1 =
      elim (index_unless-some (find_batch q.events) p found) [
        | inl at ↦
            let (before, after, was, left, high, low) = pluck-Splits q.events i at plucked in
            (before, after, was, left, (high, inl low))
        | inr (gone, urgent, first) ↦
            head-Removes p q.events urgent (find_batch-none q.events gone)
              (subst (λ j. pluck q.events j ≡ some r) first plucked)
      ] in
    subst (λ x. Removes p q.events x.0 x.1.events) same moved

-- What the loop has done from the entries `es` and the records `rs` evicted before.
abbrev pub Clears : DeliveryPriority → ℕ → List QueueEntry → List QueuedEventRecord → Room → Type 0
Clears p size es rs (room q d rs') =
    (new : List QueuedEventRecord) × (rs' ≡ rs ++ new)
    × Evictions p size es new q.events
    × IsWithin size q.events
Clears p size es rs (refused q d rs') =
    (new : List QueuedEventRecord) × (rs' ≡ rs ++ new)
    × Evictions p size es new q.events
    × IsOver size q.events
    × HaveNoBatch q.events
Clears p size es rs (threw q) = Unit
Clears p size es rs stalled = Unit

prepend-Evictions :
    (p : DeliveryPriority) (size : ℕ) (es mid es' : List QueueEntry) (e : QueueEntry)
    (new : List QueuedEventRecord)
    → IsOver size es
    → Removes p es e mid
    → Evictions p size mid new es'
    → Evictions p size es (e.queued ∷ new) es'
unfolding Removes
prepend-Evictions p size es mid es' e new over (before, after, was, left, victim) rest =
    (before, e, after, was, over, victim, refl, subst (λ x. Evictions p size x new es') left rest)

Clears-prepend :
    (p : DeliveryPriority) (size : ℕ) (es mid : List QueueEntry) (e : QueueEntry)
    (rs : List QueuedEventRecord) (m : Room)
    → IsOver size es
    → Removes p es e mid
    → Clears p size mid (rs ++ e.queued ∷ []) m
    → Clears p size es rs m
Clears-prepend p size es mid e rs (room q d rs') over one (new, same, rest, within) = (
  e.queued ∷ new,
  same ∙ append_assoc rs (e.queued ∷ []) new,
  prepend-Evictions p size es mid q.events e new over one rest,
  within,
)
Clears-prepend p size es mid e rs (refused q d rs') over one (new, same, rest, full, high) = (
  e.queued ∷ new,
  same ∙ append_assoc rs (e.queued ∷ []) new,
  prepend-Evictions p size es mid q.events e new over one rest,
  full,
  high,
)
Clears-prepend p size es mid e rs (threw q) over one h = tt
Clears-prepend p size es mid e rs stalled over one h = tt

module _ (bytes : ByteLength) where
  pub make_room-Clears :
      (fuel : ℕ) (p : DeliveryPriority) (size : ℕ) (q : EventQueue) (d : ℕ)
      (rs : List QueuedEventRecord)
      → IsCounted bytes q
      → Clears p size q.events rs (make_room fuel p size q d rs)
  unfolding make_room
  make_room-Clears zero p size q d rs v = tt
  make_room-Clears (suc fuel) p size q d rs v = elim (Bool-cases (is_full q size)) [
    | inr fits ↦
        rw (fits, make_room) ([], sym (append-nil rs), refl, is_full-IsWithin q size v.counted fits)
    | inl full ↦
        let over = is_full-IsOver q size v.counted full in
        elim (Option-cases (index_unless (find_batch q.events) p)) [
          | inl kept ↦
              let (low, gone) = index_unless-none _ p kept in
              rw (full, kept, make_room)
                ([], sym (append-nil rs), refl, over, find_batch-none q.events gone)
          | inr (i, found) ↦ elim (Option-cases (remove_at q i)) [
            | inl gone ↦ rw (full, found, gone, make_room) tt
            | inr ((e, q'), taken) ↦
                let w = remove_at-Evicts bytes q i e q' v taken in
                rw (full, found, taken, make_room)
                  (Clears-prepend p size q.events q'.events e rs _ over
                    (chosen-Removes p q q' i e found taken)
                    (make_room-Clears fuel p size q' (d + 1) (rs ++ e.queued ∷ []) w.counted))
          ]
        ]
  ]
