-- ===== src/Processor/Worker.antt =====
-- services/processor/src/processor.ts and worker.ts, on the messages of the admission source,
-- `next` of packages/pipeline/src/jetstream.ts.
pub mod Laws
use spectro.Prelude.{
  Bool, true, false, if◌then◌else◌, Either-cases, ◌≡◌, refl, ap, ◌⊎◌, inl, inr, ℕ, Option, none,
  some, List, [], ◌∷◌, map, length, length-map, ◌∙◌, Text, Either, ok, err, Option-cases,
}
use spectro.Protocol.Event.{SpectroEvent, Envelope, of_error, Payload}
use spectro.Pipeline.{AdmittedEnvelope, InvalidAdmitted, Message, Codec, admit_message}
use spectro.Processor.Fingerprint.{create_error_fingerprint}

pub record ProcessingMetadata : Type 0 where
  pub envelope_sent_at : ℕ
  pub processed_at : ℕ
  pub error_fingerprint : Option Text

pub record ProcessedEvent : Type 0 where
  pub event : SpectroEvent
  pub processing : ProcessingMetadata

-- `ProcessedEventWriter` with its store: whether `append` returns, or throws, and what the store is
-- afterwards. One that throws may have written the events all the same.
pub record ProcessedEventWriter {ℓ} (W : Type ℓ) : Type ℓ where
  pub append : List ProcessedEvent → W → Bool × W

-- Whether `ack`, `nak` and `term` of a message return, or throw.
pub record Broker : Type 0 where
  pub acks : Bool
  pub naks : Bool
  pub terms : Bool

-- A call on the message of a delivery that returned.
pub data Settlement : Type 0 where
  ack term : Settlement
  nak : (delay_ms : ℕ) → Settlement

pub data ProcessorWorkResult : Type 0 where
  idle : ProcessorWorkResult
  processed : (envelope_id : Text) (processed : ℕ) → ProcessorWorkResult

-- The errors that `runOnce` throws.
pub data WorkError : Type 0 where
  invalid : InvalidAdmitted → WorkError
  not_written not_acknowledged not_returned not_terminated : WorkError

module _ (normalize_volatile_text : Text → Text) (digest : Text → Text) where
  abbrev fingerprint_of : Payload → Option Text
  fingerprint_of (of_error p) = some (create_error_fingerprint normalize_volatile_text digest p)
  fingerprint_of _ = none

  abbrev pub process_event : (envelope_sent_at processed_at : ℕ) → SpectroEvent → ProcessedEvent
  process_event sent at e = record {
    event = e;
    processing = record {
      envelope_sent_at = sent;
      processed_at = at;
      error_fingerprint = fingerprint_of e.payload;
    };
  }

  abbrev pub process_events : (now : ℕ) → Envelope → List ProcessedEvent
  process_events now e = map (process_event e.sent_at now) e.items

  module _ {ℓ κ} {D : Type ℓ} {W : Type κ} (codec : Codec D) (writer : ProcessedEventWriter W)
      (retry_delay_ms : ℕ) where
    -- `EventProcessor.process` at the time `now`; `none` is an error thrown.
    abbrev pub written : ℕ → Bool × W → Option ℕ × W
    written n (true, w) = (some n, w)
    written n (false, w) = (none, w)

    unfoldable pub process : (now : ℕ) → Envelope → W → Option ℕ × W
    process now e w =
        written (length (process_events now e)) (writer.append (process_events now e) w)

    -- The `catch` block, which throws the error `e` or that of `retry`. What the hook `onRetry` throws
    -- is dropped.
    abbrev pub give_back :
        Broker → WorkError → W → Either WorkError ProcessorWorkResult × List Settlement × W
    give_back broker e w =
        if broker.naks then (err e, nak retry_delay_ms ∷ [], w) else (err not_returned, [], w)

    abbrev pub settle :
        AdmittedEnvelope
        → Broker
        → Option ℕ × W
        → Either WorkError ProcessorWorkResult × List Settlement × W
    settle a broker (none, w) = give_back broker not_written w
    settle a broker (some n, w) =
        if broker.acks
        then (ok (processed a.envelope_id n), ack ∷ [], w)
        else give_back broker not_acknowledged w

    abbrev pub deliver :
        (now : ℕ)
        → Broker
        → Either InvalidAdmitted AdmittedEnvelope
        → W
        → Either WorkError ProcessorWorkResult × List Settlement × W
    deliver now broker (err e) w =
        if broker.terms then (err (invalid e), term ∷ [], w) else (err not_terminated, [], w)
    deliver now broker (ok a) w = settle a broker (process now a.envelope w)

    -- `ProcessorWorker.runOnce`, with the message that the consumer yields.
    unfoldable pub run_once :
        (now : ℕ)
        → Broker
        → Option (Message D)
        → W
        → Either WorkError ProcessorWorkResult × List Settlement × W
    run_once now broker none w = (ok idle, [], w)
    run_once now broker (some m) w = deliver now broker (admit_message codec m) w
