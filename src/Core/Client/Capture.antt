-- ===== src/Core/Client/Capture.antt =====
-- Theorems about `capture` of packages/core/src/client.ts.
use spectro.Prelude.{
  ok_injective, Either-cases, ℕ, ◌≤◌, ◌≡◌, ◌⊎◌, inl, inr, refl, sym, subst, ap, ◌∙◌, true, false,
  Option, none, some, List, [], ◌∷◌, ◌++◌, arith, ltb, or_else, Bool-cases, Text,
}
use spectro.Protocol.Event.{SpectroEvent, max_event_bytes, DeliveryPriority, QueuedEventRecord}
use spectro.Core.Normalize.{ok, >>=-eq-ok}
use spectro.Core.Context.{ClientContextInput, overlay, create_event_context}
use spectro.Core.Queue.Defs.{EventQueue}
use spectro.Core.Queue.Evict.{IsValid, contents}
use spectro.Core.Queue.Enqueue.{EnqueueResult, enqueue}
use spectro.Core.Queue.Enqueue.Laws.{Outcome, enqueue-Outcome}
use spectro.Core.Client.{
  Client, CaptureInput, Setting, Effect, report, ClientError, is_event_name, event_priority,
  candidate, sanitize_payload, after_enqueue, dropping, admit, capture,
}

-- The queue holds the record as its last entry.
abbrev pub EndsWith : EventQueue → QueuedEventRecord → Type 0
EndsWith q r = (kept : List QueuedEventRecord) × (contents q.events ≡ kept ++ r ∷ [])

-- The last effect of `c'` on those of `c` is a report.
abbrev pub Reported : Client → Client → Type 0
Reported c c' =
    (es : List Effect) × (e : ClientError) × (c'.effects ≡ c.effects ++ (es ++ report e ∷ []))

-- What `capture` returns with the event `event`: it is stored and its id returned, or an error is
-- reported.
abbrev pub Captured : Setting → SpectroEvent → Client → Option Text × Client → Type 0
Captured s event c r =
    IsValid s.bytes r.1.queue
    × (((r.0 ≡ none) × Reported c r.1)
        ⊎ ((r.0 ≡ some event.id)
            × (s.validate event ≡ true)
            × (s.bytes.event event ≤ max_event_bytes)
            × ((q : QueuedEventRecord) × (q.event ≡ event) × EndsWith r.1.queue q)))

module _ (s : Setting) where
  after_enqueue-Captured :
      (r : QueuedEventRecord) (c : Client) (o : Option EnqueueResult × EventQueue)
      → s.validate r.event ≡ true
      → s.bytes.event r.event ≤ max_event_bytes
      → Outcome s.bytes r c.queue o
      → Captured s r.event c (after_enqueue s r c o)
  after_enqueue-Captured r c (none, q) valid small (v, _, _) = (v, inl (refl, ([], _, refl)))
  after_enqueue-Captured r c (some result, q) valid small (v, h, _) =
      elim (Bool-cases result.accepted) [
        | inl y ↦ rw (y, after_enqueue) (v, inr (refl, valid, small, (r, refl, (rw y at h).2)))
        | inr n ↦ rw (n, after_enqueue) (v, inl (refl, (dropping s result, _, refl)))
      ]

  abbrev recorded : SpectroEvent → Option DeliveryPriority → QueuedEventRecord
  recorded event priority = record {
    event = event;
    priority = or_else priority (event_priority event.payload);
    attempts = 0;
  }

  admit_passes :
      (event : SpectroEvent) (priority : Option DeliveryPriority) (c : Client)
      → s.validate event ≡ true
      → ltb max_event_bytes (s.bytes.event event) ≡ false
      → admit s event priority c
        ≡ after_enqueue s
            (recorded event priority)
            c
            (enqueue s.bytes (recorded event priority) c.queue)
  unfolding admit
  admit_passes event priority c good small = rw (good, small) refl

  admit-Captured :
      (event : SpectroEvent) (priority : Option DeliveryPriority) (c : Client)
      → IsValid s.bytes c.queue
      → Captured s event c (admit s event priority c)
  unfolding admit
  admit-Captured event priority c v = elim (Bool-cases (s.validate event)) [
    | inr bad ↦ rw bad (v, inl (refl, ([], _, refl)))
    | inl good ↦ elim (Bool-cases (ltb max_event_bytes (s.bytes.event event))) [
      | inl big ↦ rw (good, big) (v, inl (refl, ([], _, refl)))
      | inr small ↦ subst (Captured s event c) (sym (admit_passes event priority c good small)) (
          after_enqueue-Captured (recorded event priority) c _ good (ground arith)
            (enqueue-Outcome s.bytes (recorded event priority) c.queue v))
    ]
  ]

  candidate-id :
      (id : Text) (now : ℕ) (overrides : ClientContextInput) (input : CaptureInput)
      (event : SpectroEvent)
      → candidate s id now overrides input ≡ ok event
      → event.id ≡ id
  unfolding candidate
  candidate-id id now overrides input event h =
      let options = record s.options {
        context = overlay (overlay s.options.context overrides) input.context;
      } in
      let (context, _, rest) = >>=-eq-ok (create_event_context s.lower s.heap options) _ h in
      let (payload, _, last) = >>=-eq-ok (sanitize_payload s input.payload) _ rest in
      sym (ap (λ (e : SpectroEvent). e.id) (ok_injective _ event last))

  -- What `capture` does: the invariant holds, and an error is reported, or the event is stored.
  abbrev pub Outcomes :
      (id : Text) (now : ℕ) → CaptureInput → Client → Option Text × Client → Type 0
  Outcomes id now input c r =
      IsValid s.bytes r.1.queue
      × (((r.0 ≡ none) × Reported c r.1)
          ⊎ ((r.0 ≡ some id)
              × (is_event_name input.name ≡ true)
              × ((q : QueuedEventRecord) × (candidate s id now c.context_overrides input
                    ≡ ok q.event)
                  × (s.validate q.event ≡ true)
                  × (s.bytes.event q.event ≤ max_event_bytes)
                  × EndsWith r.1.queue q)))

  capture_passes :
      (id : Text) (now : ℕ) (input : CaptureInput) (priority : Option DeliveryPriority) (c : Client)
      (event : SpectroEvent)
      → is_event_name input.name ≡ true
      → candidate s id now c.context_overrides input ≡ ok event
      → capture s id now input priority c ≡ admit s event priority c
  unfolding capture
  capture_passes id now input priority c event named built = rw (named, built, capture) refl

  -- From a queue that satisfies the invariant, `capture` keeps the invariant, and either returns
  -- nothing and reports an error last, or returns the new event's id. In the second case the name
  -- is an event name, and the event was built, validated, found to have at most 64 KiB, and stored
  -- as the last entry of the queue.
  pub capture_outcome :
      (id : Text) (now : ℕ) (input : CaptureInput) (priority : Option DeliveryPriority) (c : Client)
      → IsValid s.bytes c.queue
      → Outcomes id now input c (capture s id now input priority c)
  unfolding capture
  capture_outcome id now input priority c v = elim (Bool-cases (is_event_name input.name)) [
    | inr bad ↦ rw bad (v, inl (refl, ([], _, refl)))
    | inl named ↦ elim (Either-cases (candidate s id now c.context_overrides input)) [
      | inr (e, refused) ↦ rw (named, refused, capture) (v, inl (refl, ([], _, refl)))
      | inl (event, built) ↦
          let (w, h) = admit-Captured event priority c v in
          subst (Outcomes id now input c)
            (sym (capture_passes id now input priority c event named built))
            (
              w,
              elim h [
                | inl silent ↦ inl silent
                | inr (given, good, small, (q, same, stored)) ↦ inr (
                  given ∙ ap some (candidate-id id now _ input event built),
                  named,
                  (q, built ∙ ap ok (sym same), rw same good, rw same small, stored),
                )
              ],
            )
    ]
  ]
