-- ===== src/Core/Client.antt =====
-- packages/core/src/client.ts: the client's state and effects, and `capture`.
pub mod Flush
pub mod Capture
pub mod Delivery
use spectro.Prelude.{
  ℕ, zero, suc, ◌+◌, Bool, true, false, not, ◌&&◌, ◌||◌, Option, none, some, List, [], ◌∷◌, ◌++◌,
  map, ltb, leb, ◌==◌, if◌then◌else◌, length, filter, or_else, Text,
}
use spectro.Protocol.Json.{Fields}
use spectro.Protocol.Event.{
  SpectroEvent, ByteLength, Payload, of_error, of_network, of_custom, of_performance,
  PerformancePayload, NetworkPayload, ErrorPayload, Mechanism, resource, max_event_bytes,
  DeliveryPriority, immediate, batch, is_immediate, QueuedEventRecord,
}
use spectro.Core.Normalize.{
  Value, Heap, ValidationError, Result, ok, err, ◌>>=◌, normalize_properties,
}
use spectro.Core.Context.{
  ClientContextInput, ClientOptions, overlay, no_context, create_event_context,
}
use spectro.Core.Queue.Defs.{EventQueue}
use spectro.Core.Queue.Enqueue.{EnqueueResult, enqueue}

pub record FlushOptions : Type 0 where
  pub keepalive : Bool
  pub priority : Option DeliveryPriority

-- The errors that the client reports.
pub data ClientError : Type 0 where
  bad_name invalid_event event_too_large queue_full entry_disappeared send_failed : ClientError
  not_json : ValidationError → ClientError
  dropped_at_capacity stopped_retrying : ℕ → ClientError
  restored_only : (restored loaded : ℕ) → ClientError

-- What the client does to its surroundings, in order. `save` and `remove` are the writes chained on
-- `#persistenceWrites`.
pub data Effect : Type 0 where
  report : ClientError → Effect
  immediate_event batch_ready : Effect
  transport_failure : FlushOptions → Effect
  save : List QueuedEventRecord → Effect
  remove : List Text → Effect

-- `#flushInFlight`: no flush; one that waits for the writes before it drains the queue; one that
-- waits for the transport.
pub data Flight : Type 0 where
  idle : Flight
  waiting : FlushOptions → Flight
  sending : FlushOptions → List QueuedEventRecord → Flight

pub record Client : Type 0 where
  pub queue : EventQueue
  pub context_overrides : ClientContextInput
  pub flight : Flight
  pub follow_up : Option FlushOptions
  pub effects : List Effect

-- A custom event and a performance event carry values that are not yet JSON.
pub data InputPayload : Type 0 where
  custom_input : (properties : Value) → InputPayload
  performance_input : PerformancePayload → (attribution : Option Value) → InputPayload
  other_input : Payload → InputPayload

pub record CaptureInput : Type 0 where
  pub name : Text
  pub timestamp : Option ℕ
  pub context : ClientContextInput
  pub payload : InputPayload

-- What the client is built with, and the platform: `validate` is the success of `validateEvent`,
-- which rests on the Ajv validators; `durable` says whether there is a durable queue.
pub record Setting : Type 0 where
  pub bytes : ByteLength
  pub lower : Text → Text
  pub heap : Heap
  pub validate : SpectroEvent → Bool
  pub options : ClientOptions
  pub durable : Bool

-- `EVENT_NAME_PATTERN`, `/^[a-z][a-z0-9_]{0,63}$/`.
abbrev is_name_char : ℕ → Bool
is_name_char c = (leb b'a' c && leb c b'z') || (leb b'0' c && leb c b'9') || c == b'_'

abbrev all_chars : (ℕ → Bool) → Text → Bool
all_chars p [] = true
all_chars p (c ∷ s) = p c && all_chars p s

pub is_event_name : Text → Bool
is_event_name [] = false
is_event_name (c ∷ s) = leb b'a' c && leb c b'z' && all_chars is_name_char s && leb (length s) 63

abbrev pub is_resource : Mechanism → Bool
is_resource resource = true
is_resource _ = false

abbrev pub is_urgent_status : Option ℕ → Bool
is_urgent_status none = false
is_urgent_status (some status) = status == 408 || leb 500 status

abbrev pub priority_if : Bool → DeliveryPriority
priority_if true = immediate
priority_if false = batch

unfoldable pub event_priority : Payload → DeliveryPriority
event_priority (of_error p) = priority_if (not p.handled && not (is_resource p.mechanism))
event_priority (of_network p) = priority_if (not p.success && is_urgent_status p.status)
event_priority _ = batch

abbrev pub immediate_ids : List QueuedEventRecord → List Text
immediate_ids rs = map (λ r. r.event.id) (filter (λ r. is_immediate r.priority) rs)

abbrev pub when : Bool → List Effect → List Effect
when true es = es
when false es = []

abbrev pub add_effects : List Effect → Client → Client
add_effects es c = record c { effects = c.effects ++ es }

module _ (s : Setting) where
  abbrev attribution_of : Option Value → Result (Option Fields)
  attribution_of none = ok none
  attribution_of (some v) = do fs ← normalize_properties s.lower s.heap v; ok (some fs)

  pub sanitize_payload : InputPayload → Result Payload
  sanitize_payload (custom_input v) = do
    fs ← normalize_properties s.lower s.heap v
    ok (of_custom fs)
  sanitize_payload (performance_input p v) = do
    attribution ← attribution_of v
    ok (of_performance (record p { attribution = attribution }))
  sanitize_payload (other_input p) = ok p

  -- The candidate, with the id of `uuidv7()` and the time of `Date.now()`.
  unfoldable pub candidate :
      (id : Text) (now : ℕ) → ClientContextInput → CaptureInput → Result SpectroEvent
  candidate id now overrides input = do
    context ←
        create_event_context s.lower s.heap (record s.options {
          context = overlay (overlay s.options.context overrides) input.context;
        })
    payload ← sanitize_payload input.payload
    ok (record {
      id = id;
      name = input.name;
      timestamp = or_else input.timestamp now;
      context = context;
      payload = payload;
    })

  abbrev pub persist : List QueuedEventRecord → List Effect
  persist [] = []
  persist (r ∷ rs) = if s.durable then save (r ∷ rs) ∷ [] else []

  abbrev pub remove_persisted : List Text → List Effect
  remove_persisted [] = []
  remove_persisted (i ∷ is) = if s.durable then remove (i ∷ is) ∷ [] else []

  abbrev pub dropping : EnqueueResult → List Effect
  dropping r =
      when (ltb 0 r.dropped) (report (dropped_at_capacity r.dropped) ∷ [])
      ++ remove_persisted (immediate_ids r.dropped_records)

  abbrev pub accepting : QueuedEventRecord → EventQueue → List Effect
  accepting r q = elim r.priority [
    | immediate ↦ persist (r ∷ []) ++ immediate_event ∷ []
    | batch ↦ when (leb 50 (length q.events)) (batch_ready ∷ [])
  ]

  -- `capture` from the call of `enqueue` on.
  abbrev pub after_enqueue :
      QueuedEventRecord → Client → Option EnqueueResult × EventQueue → Option Text × Client
  after_enqueue r c (none, q) =
      (none, add_effects (report entry_disappeared ∷ []) (record c { queue = q }))
  after_enqueue r c (some result, q) =
      if result.accepted
      then (
        some r.event.id,
        add_effects (dropping result ++ accepting r q) (record c { queue = q }),
      )
      else (none, add_effects (dropping result ++ report queue_full ∷ []) (record c { queue = q }))

  unfoldable pub admit : SpectroEvent → Option DeliveryPriority → Client → Option Text × Client
  admit event priority c =
      let r : QueuedEventRecord = record {
        event = event;
        priority = or_else priority (event_priority event.payload);
        attempts = 0;
      } in
      if not (s.validate event)
      then (none, add_effects (report invalid_event ∷ []) c)
      else if ltb max_event_bytes (s.bytes.event event)
      then (none, add_effects (report event_too_large ∷ []) c)
      else after_enqueue r c (enqueue s.bytes r c.queue)

  unfoldable pub capture :
      (id : Text) (now : ℕ) → CaptureInput → Option DeliveryPriority → Client → Option Text × Client
  capture id now input priority c =
      if not (is_event_name input.name)
      then (none, add_effects (report bad_name ∷ []) c)
      else elim (candidate id now c.context_overrides input) [
        | err e ↦ (none, add_effects (report (not_json e) ∷ []) c)
        | ok event ↦ admit event priority c
      ]

unfoldable pub update_context : ClientContextInput → Client → Client
update_context context c = record c { context_overrides = overlay c.context_overrides context }
