-- ===== src/Core/Queue/Evict.antt =====
-- What the eviction loops of packages/core/src/queue.ts share: an entry taken out of the list
-- splits it, and the invariant of the queue.
use mathlib.Core.Option
use mathlib.Core.Option.{some-injective}
use mathlib.Core.List.Perm
use spectro.Prelude.{
  ℕ, zero, suc, ◌+◌, ◌≤◌, ◌≡◌, refl, ap, subst, Bool, true, some, List, [], ◌∷◌, map, Perm, arith,
  length, All, pluck, find_index, Bool-cases, inl, inr,
}
use spectro.Protocol.Event.{ByteLength, QueuedEventRecord}
use spectro.Core.Queue.Defs.{QueueEntry, EventQueue, max_queued_events, max_queued_bytes, remove_at}

abbrev pub total : List QueueEntry → ℕ
total [] = 0
total (e ∷ es) = e.bytes + total es

-- The entries as the records that a client sees.
abbrev pub contents : List QueueEntry → List QueuedEventRecord
contents es = map (λ e. e.queued) es

-- The byte counter is the sum of the entries' sizes, and every entry has its event's size.
pub record IsCounted (bytes : ByteLength) (q : EventQueue) : Type 0 where
  pub counted : q.bytes ≡ total q.events
  pub sized : All (λ e. e.bytes ≡ bytes.event e.event) q.events

-- The invariant of `EventQueue`: also both capacity limits hold.
pub record IsValid (bytes : ByteLength) (q : EventQueue) : Type 0 where
  pub counted : q.bytes ≡ total q.events
  pub sized : All (λ e. e.bytes ≡ bytes.event e.event) q.events
  pub few : length q.events ≤ max_queued_events
  pub small : q.bytes ≤ max_queued_bytes

module _ {ℓ} {A : Type ℓ} where
  pub length-pluck :
      (xs : List A) (i : ℕ) {r : A × List A} → pluck xs i ≡ some r → length xs ≡ suc (length r.1)
  length-pluck [] i h = ground arith
  length-pluck (x ∷ xs) zero h = ground arith
  length-pluck (x ∷ xs) (suc i) h =
      let (s, e, same) = (Option.map-eq-some_iff _ _).0 h in
      rw (← same) (omega (arith, length-pluck xs i e))

  pub pluck-perm {κ} :
      {B : Type κ} (f : A → B) (xs : List A) (i : ℕ) {r : A × List A}
      → pluck xs i ≡ some r
      → Perm (map f xs) (f r.0 ∷ map f r.1)
  pluck-perm f [] i h = cc
  pluck-perm f (x ∷ xs) zero h = rw (← some-injective _ _ h) (Perm.refl _)
  pluck-perm f (x ∷ xs) (suc i) h =
      let (s, e, same) = (Option.map-eq-some_iff _ _).0 h in
      rw (← same) (Perm.trans (Perm.cons (f x) (pluck-perm f xs i e)) (Perm.swap (f s.0) (f x) _))

  pub All-pluck {κ} :
      (P : A → Type κ) (xs : List A) (i : ℕ) {r : A × List A}
      → pluck xs i ≡ some r
      → All P xs
      → P r.0 × All P r.1
  All-pluck P [] i h a = cc
  All-pluck P (x ∷ xs) zero h a = rw (← some-injective _ _ h) a
  All-pluck P (x ∷ xs) (suc i) h (p, a) =
      let (s, e, same) = (Option.map-eq-some_iff _ _).0 h in
      let (q, b) = All-pluck P xs i e a in rw (← same) (q, (p, b))

  -- An index that `findIndex` returns can be taken out.
  pub pluck-find_index :
      (p : A → Bool) (xs : List A) {i : ℕ}
      → find_index p xs ≡ some i
      → (r : A × List A) × (pluck xs i ≡ some r) × (p r.0 ≡ true)
  pluck-find_index p [] h = cc
  pluck-find_index p (x ∷ xs) {i} h = elim (Bool-cases (p x)) [
    | inl here ↦ rw (← some-injective 0 i (rw here at h)) ((x, xs), refl, here)
    | inr later ↦
        let (j, e, same) = (Option.map-eq-some_iff suc (find_index p xs)).0 (rw later at h) in
        let (r, taken, good) = pluck-find_index p xs e in
        rw (← same) ((r.0, x ∷ r.1), ap (Option.map (λ s. (s.0, x ∷ s.1))) taken, good)
  ]

pub total-pluck :
    (xs : List QueueEntry) (i : ℕ) {r : QueueEntry × List QueueEntry}
    → pluck xs i ≡ some r
    → total xs ≡ r.0.bytes + total r.1
total-pluck [] i h = cc
total-pluck (x ∷ xs) zero h = ground arith
total-pluck (x ∷ xs) (suc i) h =
    let (s, e, same) = (Option.map-eq-some_iff _ _).0 h in
    rw (← same) (omega (arith, total-pluck xs i e))

-- What taking out an entry does to the queue.
pub record Evicts (bytes : ByteLength) (q : EventQueue) (e : QueueEntry) (q' : EventQueue)
    : Type 0 where
  pub perm : Perm (contents q.events) (e.queued ∷ contents q'.events)
  pub counted : IsCounted bytes q'
  pub shorter : length q.events ≡ suc (length q'.events)
  pub lighter : q'.bytes ≤ q.bytes

pub remove_at-Evicts :
    (bytes : ByteLength) (q : EventQueue) (i : ℕ) (e : QueueEntry) (q' : EventQueue)
    → IsCounted bytes q
    → remove_at q i ≡ some (e, q')
    → Evicts bytes q e q'
unfolding remove_at
remove_at-Evicts bytes q i e q' v h =
    let (r, taken, same) = (Option.map-eq-some_iff _ (pluck q.events i)).0 h in
    let sum = total-pluck q.events i taken in
    let sized = (All-pluck (λ x. x.bytes ≡ bytes.event x.event) q.events i taken v.sized).1 in
    subst (λ p. Evicts bytes q p.0 p.1) same
      (record {
        perm = pluck-perm (λ x. x.queued) q.events i taken;
        counted = record { counted = omega (arith, v.counted); sized = sized };
        shorter = length-pluck q.events i taken;
        lighter = omega arith;
      })

contents_small :
    (bytes : ByteLength) (most : ℕ) (es : List QueueEntry)
    → All (λ e. e.bytes ≡ bytes.event e.event) es
    → total es ≤ most
    → All (λ r. bytes.event r.event ≤ most) (contents es)
contents_small bytes most [] h l = tt
contents_small bytes most (e ∷ es) (same, h) l =
    (omega arith, contents_small bytes most es h (omega arith))

-- No event in a queue that satisfies the invariant is too large to be put back.
pub IsValid-small :
    (bytes : ByteLength) (q : EventQueue)
    → IsValid bytes q
    → All (λ r. bytes.event r.event ≤ max_queued_bytes) (contents q.events)
IsValid-small bytes q v =
    contents_small bytes max_queued_bytes q.events v.sized (omega (arith, v.counted, v.small))
