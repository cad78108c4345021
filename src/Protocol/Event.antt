-- ===== src/Protocol/Event.antt =====
-- Events and envelopes of packages/protocol/src/types.ts. A number that the code only passes on
-- (a measured value, a coordinate) is kept as the text that `JSON.stringify` prints.
use spectro.Prelude.{ℕ, Bool, true, false, Option, List, Text}
use spectro.Protocol.Json.{Fields}
use spectro.Protocol.Context.{EventContext}

pub data EventType : Type 0 where
  session page error performance network interaction custom : EventType

pub data Mechanism : Type 0 where
  runtime promise resource manual : Mechanism

pub record StackFrame : Type 0 where
  pub filename : Option Text
  pub function : Option Text
  pub line : Option ℕ
  pub column : Option ℕ
  pub in_app : Option Bool

pub record ErrorSource : Type 0 where
  pub url : Option Text
  pub line : Option ℕ
  pub column : Option ℕ

pub record ErrorPayload : Type 0 where
  pub mechanism : Mechanism
  pub name : Option Text
  pub message : Text
  pub stack : Option (List StackFrame)
  pub fingerprint : Option (List Text)
  pub handled : Bool
  pub source : Option ErrorSource

pub data Metric : Type 0 where
  lcp inp cls fcp ttfb long_task navigation resource_timing : Metric

pub data MetricUnit : Type 0 where
  ms score : MetricUnit

pub data Rating : Type 0 where
  good needs_improvement poor : Rating

pub record PerformancePayload : Type 0 where
  pub metric : Metric
  pub value : Text
  pub unit : MetricUnit
  pub rating : Option Rating
  pub navigation_type : Option Text
  pub attribution : Option Fields

pub data Initiator : Type 0 where
  fetch xhr resource : Initiator

pub record NetworkPayload : Type 0 where
  pub method : Text
  pub url : Text
  -- `response?.status`
  pub status : Option ℕ
  pub start : Text
  pub duration : Text
  pub initiator : Initiator
  pub success : Bool

pub record InteractionTarget : Type 0 where
  pub tag : Option Text
  pub id : Option Text
  pub role : Option Text
  pub selector : Option Text
  pub monitor_id : Option Text

pub record InteractionPayload : Type 0 where
  pub target : Option InteractionTarget
  pub coordinates : Option (Text × Text)

pub data SessionAction : Type 0 where
  start finish : SessionAction

pub data PageAction : Type 0 where
  view route_change leave : PageAction

pub data Payload : Type 0 where
  of_session : (action : SessionAction) (duration : Option Text) → Payload
  of_page : (action : PageAction) (from to : Option Text) → Payload
  of_error : ErrorPayload → Payload
  of_performance : PerformancePayload → Payload
  of_network : NetworkPayload → Payload
  of_interaction : InteractionPayload → Payload
  of_custom : (properties : Fields) → Payload

-- The tag of the union, the event's `type` field.
abbrev pub event_type : Payload → EventType
event_type (of_session a d) = session
event_type (of_page a f t) = page
event_type (of_error p) = error
event_type (of_performance p) = performance
event_type (of_network p) = network
event_type (of_interaction p) = interaction
event_type (of_custom p) = custom

-- `version` is the constant `EVENT_VERSION`.
pub record SpectroEvent : Type 0 where
  pub id : Text
  pub name : Text
  pub timestamp : ℕ
  pub context : EventContext
  pub payload : Payload

-- An item is `{ type: 'event', payload }`, kept as its payload; `version` is `ENVELOPE_VERSION`.
pub record Envelope : Type 0 where
  pub sent_at : ℕ
  pub items : List SpectroEvent

abbrev pub max_event_bytes : ℕ
max_event_bytes = 65536

abbrev pub max_envelope_bytes : ℕ
max_envelope_bytes = 1048576

-- `serializedByteLength` of packages/protocol/src/validation.ts: the UTF-8 length of
-- `JSON.stringify`, both the platform's, so a parameter of the model.
pub record ByteLength : Type 0 where
  pub event : SpectroEvent → ℕ
  pub envelope : Envelope → ℕ

pub data DeliveryPriority : Type 0 where
  immediate batch : DeliveryPriority

abbrev pub is_batch : DeliveryPriority → Bool
is_batch batch = true
is_batch immediate = false

abbrev pub is_immediate : DeliveryPriority → Bool
is_immediate immediate = true
is_immediate batch = false

-- packages/types/src/index.ts
pub record QueuedEventRecord : Type 0 where
  pub event : SpectroEvent
  pub priority : DeliveryPriority
  pub attempts : ℕ
