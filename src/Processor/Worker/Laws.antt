-- ===== src/Processor/Worker/Laws.antt =====
-- What services/processor/src/worker.ts does with a message, whatever the writer and the broker do.
use spectro.Prelude.{
  Bool-cases, ◌==◌, ◌≡◌, refl, ap, inl, inr, ℕ, ◌≤◌, Bool, true, false, not, ◌&&◌, Option, none,
  some, List, [], ◌∷◌, length, length-map, if◌then◌else◌, any, arith, Text, Either, ok, err,
}
use spectro.Pipeline.{AdmittedEnvelope, InvalidAdmitted, Message, Codec, admit_message}
use spectro.Processor.Worker.{
  ProcessedEventWriter, Broker, Settlement, ack, nak, term, ProcessorWorkResult, idle, processed,
  WorkError, invalid, not_terminated, not_written, not_acknowledged, give_back, written,
  process_event, process_events, process, settle, deliver, run_once,
}

abbrev is_ack : Settlement → Bool
is_ack ack = true
is_ack term = false
is_ack (nak d) = false

abbrev is_nak : ℕ → Settlement → Bool
is_nak delay_ms ack = false
is_nak delay_ms term = false
is_nak delay_ms (nak d) = d == delay_ms

-- The envelope and the number of events that a turn reports.
abbrev pub reported : Either WorkError ProcessorWorkResult → Option (Text × ℕ)
reported (err e) = none
reported (ok idle) = none
reported (ok (processed id n)) = some (id, n)

module _ (normalize_volatile_text : Text → Text) (digest : Text → Text) where
  module _ {ℓ κ} {D : Type ℓ} {W : Type κ} (codec : Codec D) (writer : ProcessedEventWriter W)
      (retry_delay_ms : ℕ) where
    -- How a turn ends for an admitted envelope, `o` being what the writer has answered and left: it
    -- leaves that store, settles the message at most once, acknowledges it and reports its events
    -- exactly if the writer and the acknowledgement return, and otherwise gives it back with the delay.
    abbrev pub Settles :
        AdmittedEnvelope
        → Broker
        → Bool × W
        → (Either WorkError ProcessorWorkResult × List Settlement × W)
        → Type κ
    Settles a broker o r =
        (r.2 ≡ o.1)
        × (length r.1 ≤ 1)
        × (any is_ack r.1 ≡ (o.0 && broker.acks))
        × (any (is_nak retry_delay_ms) r.1 ≡ (not (o.0 && broker.acks) && broker.naks))
        × (reported r.0
            ≡ (if o.0 && broker.acks then some (a.envelope_id, length a.envelope.items) else none))

    -- The same for every message.
    abbrev pub Handles :
        (now : ℕ)
        → Broker
        → W
        → Either InvalidAdmitted AdmittedEnvelope
        → (Either WorkError ProcessorWorkResult × List Settlement × W)
        → Type κ
    Handles now broker w (err e) r =
        (r.2 ≡ w)
        × (r.1 ≡ (if broker.terms then term ∷ [] else []))
        × (r.0 ≡ err (if broker.terms then invalid e else not_terminated))
    Handles now broker w (ok a) r =
        Settles a broker
          (writer.append (process_events normalize_volatile_text digest now a.envelope) w) r

    give_back-Settles :
        (a : AdmittedEnvelope) (broker : Broker) (returned : Bool) (w : W) (e : WorkError)
        → (returned && broker.acks) ≡ false
        → Settles a broker
            (returned, w)
            (give_back normalize_volatile_text digest codec writer retry_delay_ms broker e w)
    give_back-Settles a broker returned w e h = elim (Bool-cases broker.naks) [
      | inl b ↦ rw (b, h) (refl, omega arith, refl, ground arith, refl)
      | inr b ↦ rw (b, h) (refl, omega arith, refl, refl, refl)
    ]

    settle-Settles :
        (a : AdmittedEnvelope) (broker : Broker) (o : Bool × W) (n : ℕ)
        → n ≡ length a.envelope.items
        → Settles a broker o (
            settle normalize_volatile_text digest codec writer retry_delay_ms a broker
              (written normalize_volatile_text digest codec writer retry_delay_ms n o))
    settle-Settles a broker (false, w) n h = give_back-Settles a broker false w not_written refl
    settle-Settles a broker (true, w) n h = elim (Bool-cases broker.acks) [
      | inl b ↦ rw b (refl, omega arith, refl, refl, ap (λ k. some (a.envelope_id, k)) h)
      | inr b ↦ rw b (rw b at (give_back-Settles a broker true w not_acknowledged b))
    ]

    deliver-Handles :
        (now : ℕ) (broker : Broker) (w : W) (o : Either InvalidAdmitted AdmittedEnvelope)
        → Handles now broker w o
            (deliver normalize_volatile_text digest codec writer retry_delay_ms now broker o w)
    unfolding process
    deliver-Handles now broker w (err e) = elim (Bool-cases broker.terms) [
      | inl b ↦ rw b (refl, refl, refl)
      | inr b ↦ rw b (refl, refl, refl)
    ]
    deliver-Handles now broker w (ok a) = settle-Settles a broker _ _ (
        length-map (process_event normalize_volatile_text digest a.envelope.sent_at now)
          a.envelope.items)

    -- A turn with a message that is no admitted envelope writes nothing and terminates the message, if
    -- the broker lets it. For an admitted envelope the events are handed to the writer as one batch, the
    -- store is what the writer has left, and the message is settled at most once: it is acknowledged, and
    -- its events are reported as processed, exactly if the writer and the acknowledgement return;
    -- otherwise it is given back with the retry delay, if the broker lets it, also where the writer has
    -- written the events before it failed.
    pub run_once_lem :
        (now : ℕ) (broker : Broker) (m : Message D) (w : W)
        → Handles now broker w (admit_message codec m) (
            run_once normalize_volatile_text digest codec writer retry_delay_ms now broker
              (some m)
              w)
    unfolding run_once
    run_once_lem now broker m w = deliver-Handles now broker w (admit_message codec m)
