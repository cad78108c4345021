-- ===== src/Core/Queue/Enqueue/Loop.antt =====
-- The eviction loop of `enqueue` in packages/core/src/queue.ts: how it ends, and what it evicts.
use mathlib.Core.List.Perm
use mathlib.Core.Option
use mathlib.Core.List.{perm_append_singleton}
use spectro.Prelude.{
  ℕ, zero, suc, ◌+◌, ◌≤◌, ◌<◌, ◌≡◌, refl, ap, true, false, Option, none, some, List, [], ◌∷◌, ◌++◌,
  Perm, append_assoc, arith, length, length-append, pluck, ◌⊎◌, Bool-cases, Option-cases, inl, inr,
}
use spectro.Protocol.Event.{
  ByteLength, DeliveryPriority, immediate, batch, is_batch, QueuedEventRecord,
}
use spectro.Core.Queue.Defs.{QueueEntry, EventQueue, max_queued_bytes, is_full, remove_at}
use spectro.Core.Queue.Enqueue.{
  Room, room, refused, threw, stalled, find_batch, index_unless, make_room,
}
use spectro.Core.Queue.Evict.{
  IsCounted, Evicts, contents, total, pluck-find_index, remove_at-Evicts,
}

-- From the queue `q` and the records `rs` evicted before, the entries of `q'` and the records `rs'`
-- are what was there, and each eviction is counted.
pub record Moves (bytes : ByteLength) (q : EventQueue) (d : ℕ) (rs : List QueuedEventRecord)
    (q' : EventQueue) (d' : ℕ) (rs' : List QueuedEventRecord) : Type 0 where
  pub counted : IsCounted bytes q'
  pub perm : Perm (contents q'.events ++ rs') (contents q.events ++ rs)
  pub number : d' + length rs ≡ d + length rs'
  pub fewer : length q'.events ≤ length q.events
  pub lighter : q'.bytes ≤ q.bytes

abbrev pub Ends :
    ByteLength → DeliveryPriority → ℕ → EventQueue → ℕ → List QueuedEventRecord → Room → Type 0
Ends bytes p size q d rs (room q' d' rs') = Moves bytes q d rs q' d' rs' × (is_full q' size ≡ false)
Ends bytes p size q d rs (refused q' d' rs') =
    Moves bytes q d rs q' d' rs'
    × (is_full q' size ≡ true)
    × (p ≡ batch)
    × (find_batch q'.events ≡ none)
Ends bytes p size q d rs (threw q') =
    IsCounted bytes q' × (q'.events ≡ []) × (max_queued_bytes < size) × (p ≡ immediate)
Ends bytes p size q d rs stalled = ⊥

pub perm_move {ℓ} :
    {A : Type ℓ} (a : A) (xs rs : List A) → Perm (xs ++ (rs ++ a ∷ [])) ((a ∷ xs) ++ rs)
perm_move a xs rs = rw (← append_assoc) (perm_append_singleton a (xs ++ rs))

pub index_unless-none :
    (o : Option ℕ) (p : DeliveryPriority) → index_unless o p ≡ none → (p ≡ batch) × (o ≡ none)
unfolding index_unless
index_unless-none o p h = ground arith

pub index_unless-some :
    (o : Option ℕ) (p : DeliveryPriority) {i : ℕ}
    → index_unless o p ≡ some i
    → (o ≡ some i) ⊎ ((o ≡ none) × (p ≡ immediate) × (i ≡ 0))
unfolding index_unless
index_unless-some o p h = ground arith

pub remove_at-none : (q : EventQueue) (i : ℕ) → remove_at q i ≡ none → pluck q.events i ≡ none
unfolding remove_at
remove_at-none q i h = (Option.map-eq-none_iff _ _).0 h

pub pluck_head : (es : List QueueEntry) → pluck es 0 ≡ none → es ≡ []
pluck_head [] h = refl
pluck_head (e ∷ es) h = cc

pub full_empty :
    (bytes : ByteLength) (q : EventQueue) (size : ℕ)
    → IsCounted bytes q
    → q.events ≡ []
    → is_full q size ≡ true
    → max_queued_bytes < size
unfolding is_full
full_empty bytes q size v e h = ground (arith, ap total e, ap length e)

-- The removal fails on the empty queue only, where no eviction helps.
remove_at_throws :
    (bytes : ByteLength) (p : DeliveryPriority) (size : ℕ) (q : EventQueue) (i : ℕ)
    → IsCounted bytes q
    → is_full q size ≡ true
    → index_unless (find_batch q.events) p ≡ some i
    → remove_at q i ≡ none
    → IsCounted bytes q × (q.events ≡ []) × (max_queued_bytes < size) × (p ≡ immediate)
remove_at_throws bytes p size q i v full found gone =
    elim (index_unless-some (find_batch q.events) p found) [
      | inl at ↦
          let (r, taken, _) = pluck-find_index (λ e. is_batch e.priority) q.events at in
          cc (taken, remove_at-none q i gone)
      | inr (_, urgent, first) ↦
          let e = pluck_head q.events (rw first at (remove_at-none q i gone)) in
          (v, e, full_empty bytes q size v e full, urgent)
    ]

module _ (bytes : ByteLength) where
  pub Moves-refl :
      (q : EventQueue) (d : ℕ) (rs : List QueuedEventRecord)
      → IsCounted bytes q
      → Moves bytes q d rs q d rs
  Moves-refl q d rs v = record {
    counted = v;
    perm = Perm.refl _;
    number = refl;
    fewer = omega arith;
    lighter = omega arith;
  }

  pub Moves-Evicts :
      {q q' q'' : EventQueue} {e : QueueEntry} {d d' : ℕ} {rs rs' : List QueuedEventRecord}
      → Evicts bytes q e q'
      → Moves bytes q' (d + 1) (rs ++ e.queued ∷ []) q'' d' rs'
      → Moves bytes q d rs q'' d' rs'
  Moves-Evicts {q} {q'} {e} {d} {d'} {rs} {rs'} v m = record {
    counted = m.counted;
    perm =
        Perm.trans m.perm
          (Perm.trans (perm_move e.queued _ rs) (Perm.append_right rs (Perm.symm v.perm)));
    number = omega (arith, m.number, length-append rs (e.queued ∷ []));
    fewer = omega (arith, v.shorter, m.fewer);
    lighter = omega (arith, v.lighter, m.lighter);
  }

  Ends-Evicts :
      (p : DeliveryPriority) (size : ℕ) {q q' : EventQueue} {e : QueueEntry} (d : ℕ)
      (rs : List QueuedEventRecord) (r : Room)
      → Evicts bytes q e q'
      → Ends bytes p size q' (d + 1) (rs ++ e.queued ∷ []) r
      → Ends bytes p size q d rs r
  Ends-Evicts p size d rs (room q'' d' rs') v (m, fits) = (Moves-Evicts v m, fits)
  Ends-Evicts p size d rs (refused q'' d' rs') v (m, full, low, kept) =
      (Moves-Evicts v m, full, low, kept)
  Ends-Evicts p size d rs (threw q'') v h = h
  Ends-Evicts p size d rs stalled v h = h

  pub make_room-Ends :
      (fuel : ℕ) (p : DeliveryPriority) (size : ℕ) (q : EventQueue) (d : ℕ)
      (rs : List QueuedEventRecord)
      → length q.events < fuel
      → IsCounted bytes q
      → Ends bytes p size q d rs (make_room fuel p size q d rs)
  unfolding make_room
  make_room-Ends zero p size q d rs h v = elim h [ ]
  make_room-Ends (suc fuel) p size q d rs h v = elim (Bool-cases (is_full q size)) [
    | inr fits ↦ rw (fits, make_room) (Moves-refl q d rs v, fits)
    | inl full ↦ elim (Option-cases (index_unless (find_batch q.events) p)) [
      | inl kept ↦
          rw (full, kept, make_room)
            (let (low, gone) = index_unless-none _ p kept in (Moves-refl q d rs v, full, low, gone))
      | inr (i, found) ↦ elim (Option-cases (remove_at q i)) [
        | inl gone ↦
            rw (full, found, gone, make_room) (remove_at_throws bytes p size q i v full found gone)
        | inr ((e, q'), taken) ↦
            rw (full, found, taken, make_room)
              (let w = remove_at-Evicts bytes q i e q' v taken in
                Ends-Evicts p size d rs _ w (
                  make_room-Ends fuel p size q' (d + 1) (rs ++ e.queued ∷ [])
                    (omega (arith, w.shorter)) w.counted))
      ]
    ]
  ]
