-- ===== src/Core/Client/Flush/Laws.antt =====
-- Theorems about the steps of a flush in packages/core/src/client.ts.
use spectro.Prelude.{
  ℕ, ◌≤◌, ◌<◌, ◌≡◌, inl, inr, refl, subst, Option, none, some, List, [], ◌∷◌, ◌++◌, map, Perm,
  Bool-cases, Option-cases, length, All, ◌==◌,
}
use spectro.Protocol.Event.{QueuedEventRecord}
use spectro.Core.Queue.Defs.{EventQueue, max_queued_bytes, max_delivery_attempts}
use spectro.Core.Queue.Evict.{IsValid, contents, IsValid-small}
use spectro.Core.Queue.Drain.{drain}
use spectro.Core.Queue.Drain.Laws.{drain_keeps, drained-All}
use spectro.Core.Queue.Prepend.{FailedDrainResult, attempted, retry}
use spectro.Core.Queue.Prepend.Laws.{retry_returns}
use spectro.Core.Client.{FlushOptions, Client, Flight, idle, waiting, sending, Setting}
use spectro.Core.Client.Flush.{
  FlushResult, sent, failed, settle, drained, start_flush, failing, settled, finish_flush,
  maximum_bytes,
}

-- The records that the transport holds.
abbrev pub in_flight : Flight → List QueuedEventRecord
in_flight idle = []
in_flight (waiting o) = []
in_flight (sending o rs) = rs

-- An idle client has no follow-up to start.
abbrev pub IsQuiet : Flight → Option FlushOptions → Type 0
IsQuiet idle follow_up = follow_up ≡ none
IsQuiet _ follow_up = Unit

-- The invariant of the client: that of its queue, and every record in flight can be put back.
pub record IsSound (s : Setting) (c : Client) : Type 0 where
  pub valid : IsValid s.bytes c.queue
  pub small : All (λ r. s.bytes.event r.event ≤ max_queued_bytes) (in_flight c.flight)
  pub quiet : IsQuiet c.flight c.follow_up

module _ (s : Setting) where
  settle-IsSound :
      (result : FlushResult) (c : Client)
      → IsValid s.bytes c.queue
      → IsSound s (settle result c)
        × ((settle result c).queue ≡ c.queue)
        × (in_flight (settle result c).flight ≡ [])
  unfolding settle
  settle-IsSound result c v = elim (Option-cases c.follow_up) [
    | inl gone ↦ rw (gone, settle) (record { valid = v; small = tt; quiet = gone }, refl, refl)
    | inr (o, asked) ↦ elim (Bool-cases (result.remaining == 0)) [
      | inl done ↦
          rw (asked, done, settle) (record { valid = v; small = tt; quiet = refl }, refl, refl)
      | inr more ↦
          rw (asked, more, settle) (record { valid = v; small = tt; quiet = tt }, refl, refl)
    ]
  ]

  abbrev taken : FlushOptions → ℕ → Client → List QueuedEventRecord × EventQueue
  taken o now c = drain s.bytes 100 (maximum_bytes s o) o.priority now c.queue

  drained-IsSound :
      (o : FlushOptions) (c : Client) (d : List QueuedEventRecord × EventQueue)
      → IsValid s.bytes d.1
      → All (λ r. s.bytes.event r.event ≤ max_queued_bytes) d.0
      → IsSound s (drained s o c d).1
        × (in_flight (drained s o c d).1.flight ≡ d.0)
        × ((drained s o c d).1.queue ≡ d.1)
  drained-IsSound o c ([], q) v a =
      let (w, same, none_left) = settle-IsSound _ (record c { queue = q }) v in (w, none_left, same)
  drained-IsSound o c (r ∷ rs, q) v a = (record { valid = v; small = a; quiet = tt }, refl, refl)

  -- From a sound client, the drain that starts a flush leaves a sound client, and every record of
  -- the queue is in flight or still in the queue.
  pub start_flush_keeps :
      (now : ℕ) (o : FlushOptions) (c : Client)
      → IsSound s c
      → IsSound s (start_flush s now o c).1
        × Perm
            (in_flight (start_flush s now o c).1.flight
              ++ contents (start_flush s now o c).1.queue.events)
            (contents c.queue.events)
  unfolding start_flush
  start_flush_keeps now o c v =
      let (w, p) = drain_keeps s.bytes 100 (maximum_bytes s o) o.priority now c.queue v.valid in
      let small =
        drained-All s.bytes 100 (maximum_bytes s o) o.priority now c.queue
          (λ r. s.bytes.event r.event ≤ max_queued_bytes) (IsValid-small s.bytes c.queue v.valid) in
      let (u, flying, left) = drained-IsSound o c (taken o now c) w small in
      (u, rw (flying, left) p)

  abbrev put_back : List QueuedEventRecord → Client → Option (EventQueue × FailedDrainResult)
  put_back rs c = retry s.bytes rs c.queue

  failed_as :
      (o : FlushOptions) (rs : List QueuedEventRecord) (c : Client) (q : EventQueue)
      (failure : FailedDrainResult)
      → put_back rs c ≡ some (q, failure)
      → finish_flush s o rs failed c ≡ settled s 0 (failing s o c q failure)
  unfolding finish_flush
  failed_as o rs c q failure e = rw (e, finish_flush) refl

  -- From a sound client, a flush that the transport refuses settles and leaves a sound client with
  -- nothing in flight. The records in flight, with one attempt more, and the entries captured
  -- meanwhile are then in the queue or among the dropped records; no more than seven attempts have been made for any that is sent again.
  pub finish_flush_failed :
      (o : FlushOptions) (rs : List QueuedEventRecord) (c : Client)
      → IsSound s c
      → c.flight ≡ sending o rs
      → (result : FlushResult) × (failure : FailedDrainResult) × ((finish_flush s o rs failed c).0
          ≡ some result)
        × IsSound s (finish_flush s o rs failed c).1
        × (in_flight (finish_flush s o rs failed c).1.flight ≡ [])
        × All (λ r. r.attempts < max_delivery_attempts) failure.retried
        × Perm
            (contents (finish_flush s o rs failed c).1.queue.events ++ failure.dropped_records)
            (map attempted rs ++ contents c.queue.events)
  finish_flush_failed o rs c v flying =
      let small =
        subst (λ f. All (λ r. s.bytes.event r.event ≤ max_queued_bytes) (in_flight f)) flying
          v.small in
      let (q, failure, e, w, young, p, _, _, _) = retry_returns s.bytes rs c.queue v.valid small in
      let (u, same, none_left) =
        settle-IsSound (record { sent = 0; remaining = length q.events }) (failing s o c q failure)
          w in
      rw (failed_as o rs c q failure e) (_, failure, refl, u, none_left, young, rw same p)

  -- From a sound client, a flush that the transport accepts settles and leaves a sound client with
  -- nothing in flight and the queue as it was.
  pub finish_flush_sent :
      (o : FlushOptions) (rs : List QueuedEventRecord) (accepted : ℕ) (c : Client)
      → IsSound s c
      → IsSound s (finish_flush s o rs (sent accepted) c).1
        × ((finish_flush s o rs (sent accepted) c).1.queue ≡ c.queue)
        × (in_flight (finish_flush s o rs (sent accepted) c).1.flight ≡ [])
  unfolding finish_flush
  finish_flush_sent o rs accepted c v = settle-IsSound _ _ v.valid
