-- ===== src/Core/Client/Delivery.antt =====
-- The client of packages/core/src/client.ts as a state machine: calls of the application, the steps
-- of a flush and the answers of the transport, in any order.
use spectro.Prelude.{
  Either-cases, ℕ, ◌≤◌, ◌≡◌, ◌⊎◌, inl, inr, refl, true, Option, none, some, List, [], arith, filter,
  ltb, Text, All-map, All-filter, Bool-cases,
}
use spectro.Protocol.Event.{SpectroEvent, DeliveryPriority, QueuedEventRecord, max_event_bytes}
use spectro.Core.Context.{ClientContextInput, no_context}
use spectro.Core.Queue.Defs.{EventQueue, empty, max_queued_bytes}
use spectro.Core.Queue.Evict.{IsValid}
use spectro.Core.Queue.Enqueue.{EnqueueResult, restore}
use spectro.Core.Queue.Enqueue.Restore.{restore-IsValid}
use spectro.Core.Client.{
  FlushOptions, Client, Flight, idle, waiting, sending, CaptureInput, Setting, capture,
  update_context, admit, after_enqueue, candidate, is_event_name,
}
use spectro.Core.Client.Capture.{capture_outcome}
use spectro.Core.Client.Flush.{
  SendOutcome, sent, failed, flush, start_flush, finish_flush, restore_queue, restoring,
  is_valid_record,
}
use spectro.Core.Client.Flush.Laws.{
  IsSound, start_flush_keeps, finish_flush_failed, finish_flush_sent,
}

pub data Step (s : Setting) : Client → Client → Type 0 where
  captures :
      (c : Client) (id : Text) (now : ℕ) (input : CaptureInput) (p : Option DeliveryPriority)
      → Step s c (capture s id now input p c).1
  updates : (c : Client) (context : ClientContextInput) → Step s c (update_context context c)
  restores : (c : Client) (records : List QueuedEventRecord) → Step s c (restore_queue s records c)
  flushes : (c : Client) (o : FlushOptions) → Step s c (flush o c)
  starts :
      (c : Client) (o : FlushOptions) (now : ℕ)
      → c.flight ≡ waiting o
      → Step s c (start_flush s now o c).1
  finishes :
      (c : Client) (o : FlushOptions) (rs : List QueuedEventRecord) (answer : SendOutcome)
      → c.flight ≡ sending o rs
      → Step s c (finish_flush s o rs answer c).1

pub data Reach (s : Setting) (c : Client) : Client → Type 0 where
  here : Reach s c c
  next : {d e : Client} → Reach s c d → Step s d e → Reach s c e

abbrev pub initial : Client
initial = record {
  queue = empty;
  context_overrides = no_context;
  flight = idle;
  follow_up = none;
  effects = [];
}

Flight-cases :
    (f : Flight)
    → (f ≡ idle)
      ⊎ ((o : FlushOptions) × (f ≡ waiting o))
      ⊎ ((o : FlushOptions) × (rs : List QueuedEventRecord) × (f ≡ sending o rs))
Flight-cases idle = inl refl
Flight-cases (waiting o) = inr (inl (o, refl))
Flight-cases (sending o rs) = inr (inr (o, rs, refl))

module _ (s : Setting) where
  -- A call that flushes nothing.
  abbrev Idles : Client → Client → Type 0
  Idles c d = (d.flight ≡ c.flight) × (d.follow_up ≡ c.follow_up)

  after_enqueue-Idles :
      (r : QueuedEventRecord) (c : Client) (o : Option EnqueueResult × EventQueue)
      → Idles c (after_enqueue s r c o).1
  after_enqueue-Idles r c (none, q) = (refl, refl)
  after_enqueue-Idles r c (some result, q) = elim (Bool-cases result.accepted) [
    | inl y ↦ rw (y, after_enqueue) (refl, refl)
    | inr n ↦ rw (n, after_enqueue) (refl, refl)
  ]

  admit-Idles :
      (event : SpectroEvent) (p : Option DeliveryPriority) (c : Client)
      → Idles c (admit s event p c).1
  unfolding admit
  admit-Idles event p c = elim (Bool-cases (s.validate event)) [
    | inr bad ↦ rw bad (refl, refl)
    | inl good ↦ elim (Bool-cases (ltb max_event_bytes (s.bytes.event event))) [
      | inl big ↦ rw (good, big) (refl, refl)
      | inr small ↦ rw (good, small) (after_enqueue-Idles _ c _)
    ]
  ]

  pub capture-Idles :
      (id : Text) (now : ℕ) (input : CaptureInput) (p : Option DeliveryPriority) (c : Client)
      → Idles c (capture s id now input p c).1
  unfolding capture
  capture-Idles id now input p c = elim (Bool-cases (is_event_name input.name)) [
    | inr bad ↦ rw bad (refl, refl)
    | inl named ↦ elim (Either-cases (candidate s id now c.context_overrides input)) [
      | inr (e, refused) ↦ rw (named, refused, capture) (refl, refl)
      | inl (event, built) ↦ rw (named, built, capture) (admit-Idles event p c)
    ]
  ]

  IsSound-Idles : (c d : Client) → IsValid s.bytes d.queue → Idles c d → IsSound s c → IsSound s d
  IsSound-Idles c d w (f, u) v = record {
    valid = w;
    small = rw f v.small;
    quiet = rw (f, u) v.quiet;
  }

  flush-IsSound : (c : Client) (o : FlushOptions) → IsSound s c → IsSound s (flush o c)
  unfolding flush
  flush-IsSound c o v = elim (Flight-cases c.flight) [
    | inl still ↦ rw (still, flush) (record { valid = v.valid; small = tt; quiet = tt })
    | inr (inl (o', wait)) ↦
        rw (wait, flush) (record { valid = v.valid; small = v.small; quiet = rw wait tt })
    | inr (inr (o', rs, fly)) ↦
        rw (fly, flush) (record { valid = v.valid; small = v.small; quiet = rw fly tt })
  ]

  restoring-IsSound :
      (records valid : List QueuedEventRecord) (c : Client) (o : Option ℕ × EventQueue)
      → IsSound s c
      → IsValid s.bytes o.1
      → IsSound s (restoring s records valid c o)
  restoring-IsSound records valid c (none, q) v w = record {
    valid = w;
    small = v.small;
    quiet = v.quiet;
  }
  restoring-IsSound records valid c (some n, q) v w = record {
    valid = w;
    small = v.small;
    quiet = v.quiet;
  }

  restore_queue-IsSound :
      (c : Client) (records : List QueuedEventRecord)
      → IsSound s c
      → IsSound s (restore_queue s records c)
  unfolding restore_queue
  restore_queue-IsSound c records v =
      let valid = filter (is_valid_record s) records in
      let small =
        All-map (λ r. is_valid_record s r ≡ true) (λ r. s.bytes.event r.event ≤ max_queued_bytes)
          valid (λ r h. ground arith) (All-filter (is_valid_record s) records) in
      restoring-IsSound records valid c (restore s.bytes valid c.queue) v
        (restore-IsValid s.bytes valid c.queue v.valid small).2

  Step-IsSound : {c d : Client} → Step s c d → IsSound s c → IsSound s d
  unfolding update_context
  Step-IsSound (captures c id now input p) v =
      IsSound-Idles c _ (capture_outcome s id now input p c v.valid).0
        (capture-Idles id now input p c) v
  Step-IsSound (updates c context) v = record { valid = v.valid; small = v.small; quiet = v.quiet }
  Step-IsSound (restores c records) v = restore_queue-IsSound c records v
  Step-IsSound (flushes c o) v = flush-IsSound c o v
  Step-IsSound (starts c o now e) v = (start_flush_keeps s now o c v).0
  Step-IsSound (finishes c o rs (sent n) e) v = (finish_flush_sent s o rs n c v).0
  Step-IsSound (finishes c o rs failed e) v =
      let (_, _, _, w, _, _, _) = finish_flush_failed s o rs c v e in w

  Reach-IsSound : {c d : Client} → Reach s c d → IsSound s c → IsSound s d
  Reach-IsSound here v = v
  Reach-IsSound (next r st) v = Step-IsSound st (Reach-IsSound r v)

  -- After any calls, steps and answers, in any order, the queue's byte counter is the sum of its
  -- entries, it holds at most 500 events and 4 MiB, every record in flight can be put back, and an
  -- idle client has no follow-up left to start.
  pub Reach-initial-IsSound : (c : Client) → Reach s initial c → IsSound s c
  Reach-initial-IsSound c r = Reach-IsSound r (record {
    valid = record { counted = refl; sized = tt; few = omega arith; small = omega arith };
    small = tt;
    quiet = refl;
  })
