-- ===== src/Core/Queue/Drain/Laws.antt =====
-- Theorems about `drain` of packages/core/src/queue.ts.
use mathlib.Core.List.{map-append, map-map}
use mathlib.Core.List.Perm
use spectro.Prelude.{
  ℕ, suc, ◌+◌, ◌-◌, ◌≤◌, ◌≡◌, ◌⊎◌, inl, inr, refl, sym, subst, Bool, not, Option, List, [], ◌∷◌,
  ◌++◌, map, Perm, arith, length, length-perm, has, filter_index, All, All-of, ap, length-map,
  nil_of_length, ◌∙◌,
}
use spectro.Protocol.Event.{SpectroEvent, ByteLength, DeliveryPriority, QueuedEventRecord}
use spectro.Core.Queue.Defs.{QueueEntry, EventQueue}
use spectro.Core.Queue.Evict.{IsValid, contents, total}
use spectro.Core.Queue.Drain.{candidates, choose, subtract_bytes, drain}
use spectro.Core.Queue.Drain.Indices.{
  at_indices, at_indices-perm, filter_index-perm, All-filter_index,
}
use spectro.Core.Queue.Drain.Candidates.{candidates-Distinct}
use spectro.Core.Queue.Drain.Choice.{Chosen, choose-Chosen}

subtract_bytes-total : (n : ℕ) (es : List QueueEntry) → subtract_bytes n es ≡ n - total es
unfolding subtract_bytes
subtract_bytes-total n [] = omega arith
subtract_bytes-total n (e ∷ es) = omega (arith, subtract_bytes-total (n - e.bytes) es)

total-filter_index :
    (p : ℕ → Bool) (i : ℕ) (es : List QueueEntry)
    → total (filter_index p i es) + total (filter_index (λ j. not (p j)) i es) ≡ total es
total-filter_index p i [] = omega arith
total-filter_index p i (e ∷ es) = ground (arith, total-filter_index p (suc i) es)

length-filter_index-le {ℓ} :
    {A : Type ℓ} (p : ℕ → Bool) (i : ℕ) (xs : List A) → length (filter_index p i xs) ≤ length xs
length-filter_index-le p i [] = omega arith
length-filter_index-le p i (x ∷ xs) = ground (arith, length-filter_index-le p (suc i) xs)

length-at_indices-le {ℓ} :
    {A : Type ℓ} (xs : List A) (js : List ℕ) → length (at_indices xs js) ≤ length js
length-at_indices-le xs [] = omega arith
length-at_indices-le xs (j ∷ js) = ground (arith, length-at_indices-le xs js)

All-contents :
    (P : QueuedEventRecord → Type 0) (es : List QueueEntry)
    → All (λ e. P e.queued) es
    → All P (contents es)
All-contents P [] h = tt
All-contents P (e ∷ es) (p, h) = (p, All-contents P es h)

All-contents' :
    (P : QueuedEventRecord → Type 0) (es : List QueueEntry)
    → All P (contents es)
    → All (λ e. P e.queued) es
All-contents' P [] h = tt
All-contents' P (e ∷ es) (p, h) = (p, All-contents' P es h)

module _ (bytes : ByteLength) (limit maximum : ℕ) (priority : Option DeliveryPriority) (now : ℕ)
    (q : EventQueue) where
  -- From a queue that satisfies the invariant, `drain` loses and invents no record: what it returns
  -- and what it leaves are together the old entries. The queue that it leaves satisfies the
  -- invariant.
  pub drain_keeps :
      IsValid bytes q
      → IsValid bytes (drain bytes limit maximum priority now q).1
        × Perm
            ((drain bytes limit maximum priority now q).0
              ++ contents (drain bytes limit maximum priority now q).1.events)
            (contents q.events)
  unfolding drain
  drain_keeps v =
      let js = choose bytes q.events limit maximum now (candidates q.events priority) [] [] in
      (
        record {
          counted = omega (
            arith,
            v.counted,
            subtract_bytes-total q.bytes (filter_index (λ i. has i js) 0 q.events),
            total-filter_index (λ i. has i js) 0 q.events,
          );
          sized = All-filter_index _ (λ i. not (has i js)) 0 q.events v.sized;
          few = omega (arith, v.few, length-filter_index-le (λ i. not (has i js)) 0 q.events);
          small = omega (
            arith,
            v.small,
            subtract_bytes-total q.bytes (filter_index (λ i. has i js) 0 q.events),
          );
        },
        rw (← map-append) (Perm.map (λ e. e.queued) (filter_index-perm (λ i. has i js) 0 q.events)),
      )

  drained-Chosen :
      (items : List SpectroEvent) × Chosen bytes q.events limit maximum now
        (choose bytes q.events limit maximum now (candidates q.events priority) [] [])
        items
  drained-Chosen =
      choose-Chosen bytes q.events limit maximum now (candidates q.events priority) [] []
        (candidates-Distinct q.events priority) (All-of _ _ (λ j. refl))
        (record { distinct = tt; inside = tt; few = omega arith; items_eq = refl; fits = inl refl })

  -- `drain` returns at most `limit` records, and the envelope of their events, sent at the time of
  -- the drain, has at most `maximum` bytes unless it is empty, whatever the priority. The
  -- serialised length of an envelope is assumed not to depend on the order of its items.
  pub drain_limits :
      ((n : ℕ) (xs ys : List SpectroEvent)
        → Perm xs ys
        → bytes.envelope (record { sent_at = n; items = xs })
          ≡ bytes.envelope (record { sent_at = n; items = ys }))
      → (length (drain bytes limit maximum priority now q).0 ≤ limit)
        × (((drain bytes limit maximum priority now q).0 ≡ [])
            ⊎ (bytes.envelope (record {
              sent_at = now;
              items = map (λ r. r.event) (drain bytes limit maximum priority now q).0;
            })
                ≤ maximum))
  unfolding drain
  drain_limits unordered =
      let js = choose bytes q.events limit maximum now (candidates q.events priority) [] [] in
      let (items, c) = drained-Chosen in
      let p = at_indices-perm q.events js c.distinct c.inside in
      let removed = filter_index (λ i. has i js) 0 q.events in
      let count = length-map (λ e. e.queued) removed in
      (
        omega (arith, c.few, count, length-perm p, length-at_indices-le q.events js),
        elim c.fits [
          | inl none_chosen ↦ inl (
              nil_of_length _ (
                omega (
                  arith,
                  count,
                  length-perm p,
                  ap length (sym c.items_eq ∙ none_chosen),
                  length-map (λ e. e.event) (at_indices q.events js),
                )))
          | inr fits ↦
              let same =
                subst (Perm (map (λ e. e.event) removed)) (sym c.items_eq)
                  (Perm.map (λ e. e.event) p) in
              inr (rw (map-map, unordered now _ items same) fits)
        ],
      )

  -- What holds of every entry holds of every record drained.
  pub drained-All :
      (P : QueuedEventRecord → Type 0)
      → All P (contents q.events)
      → All P (drain bytes limit maximum priority now q).0
  unfolding drain
  drained-All P a =
      All-contents P _
        (All-filter_index (λ e. P e.queued) _ 0 q.events (All-contents' P q.events a))
