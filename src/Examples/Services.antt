-- ===== src/Examples/Services.antt =====
-- The theorems on ingestion, the pipeline and the processor, at concrete inputs.
use spectro.Prelude.{Text, ◌≡◌, refl, ℕ, true, false, none, some, List, [], ◌∷◌, text, Option}
use spectro.Protocol.Json.{Json, Items, Fields}
use spectro.Protocol.Event.{SpectroEvent, Envelope, ErrorPayload, runtime}
use spectro.Ingest.{granted, Authorizer, write_keys, EventStore, Request, post_envelope}
use spectro.Ingest.Laws.{Replies, post_envelope_lem}
use spectro.Pipeline.{AdmittedEnvelope, create_admission_metadata, Codec, publish, admit_message}
use spectro.Processor.Fingerprint.{
  create_error_fingerprint, moved_stack, create_error_fingerprint-moved,
}
use spectro.Processor.Worker.Laws.{Handles, run_once_lem}
use spectro.Processor.Worker.{Broker, ProcessedEvent, ProcessedEventWriter, run_once}
use spectro.Processor.Status.{
  AdmissionPipelineSnapshot, default_pipeline_status_thresholds, healthy, inspect_pipeline_status,
}
use spectro.Examples.Samples.{bytes, click, crash}

abbrev body : Json
body =
    Json.obj (
      Fields.field (text "items") (Json.arr (Items.cons (Json.obj Fields.end) Items.nil))
        Fields.end)

abbrev sent : Envelope
sent = record { sent_at = 7000; items = click ∷ crash ∷ [] }

abbrev keys : Authorizer
keys = write_keys (λ k.
    granted
      (record { project_id = text "shop"; environment = text "production"; allowed_origins = [] }))

abbrev request : Request
request = record { key = some (text "spk_1"); origin = none; body = body }

abbrev read : Json → Option Envelope
read j = some sent

-- A store whose `append` throws after it has stored the envelope.
abbrev uncertain : EventStore (List SpectroEvent)
uncertain = record { append = λ e events. (false, e.items) }

post_envelope_lem_example :
    Replies uncertain keys bytes
      (λ j. 900)
      read
      request
      []
      (post_envelope uncertain keys bytes (λ j. 900) read request [])
post_envelope_lem_example = post_envelope_lem uncertain keys bytes (λ j. 900) read request []

abbrev codec : Codec Json
codec = record {
  digest = λ s. s;
  show = λ n. text "7";
  number = λ t. some 7;
  encode = λ e. body;
  parse = λ d. some d;
  validate = read;
}

abbrev admitted : AdmittedEnvelope
admitted = record { metadata = create_admission_metadata codec sent 7; envelope = sent }

abbrev failure : ErrorPayload
failure = record {
  mechanism = runtime;
  name = none;
  message = text "boom";
  stack = some (
      record {
        filename = some (text "app.js?v=1");
        function = some (text "run");
        line = some 3;
        column = some 9;
        in_app = some true;
      }
      ∷ []);
  fingerprint = none;
  handled = true;
  source = none;
}

create_error_fingerprint-moved_example :
    create_error_fingerprint (λ s. s) (λ s. s) (moved_stack (λ f. (some 7, none)) failure)
    ≡ create_error_fingerprint (λ s. s) (λ s. s) failure
create_error_fingerprint-moved_example =
    create_error_fingerprint-moved (λ f. (some 7, none)) (λ s. s) (λ s. s) failure

-- A writer that throws after it has written the events.
abbrev writer : ProcessedEventWriter (List ProcessedEvent)
writer = record { append = λ es w. (false, es) }

abbrev broker : Broker
broker = record { acks = true; naks = true; terms = true }

run_once_lem_example :
    Handles
      (λ s. s)
      (λ s. s)
      codec
      writer
      1000
      8000
      broker
      []
      (admit_message codec (publish codec sent 7100))
      (run_once (λ s. s) (λ s. s) codec writer 1000 8000 broker (some (publish codec sent 7100)) [])
run_once_lem_example =
    run_once_lem (λ s. s) (λ s. s) codec writer 1000 8000 broker (publish codec sent 7100) []

abbrev snapshot : AdmissionPipelineSnapshot
snapshot = record {
  stream_stored_messages = 12;
  stream_bytes = 800;
  stream_max_bytes = 1000;
  oldest_stored_message_at = some (text "then");
  lost_bytes = 0;
  consumer_pending = 2;
  consumer_ack_pending = 1;
  consumer_redelivered = 0;
  consumer_max_deliver = some 10;
  consumer_delivered_sequence = 40;
  consumer_acknowledged_sequence = 38;
}

abbrev date_of : Text → Option ℕ
date_of s = some 5000

is_healthy :
    (inspect_pipeline_status date_of default_pipeline_status_thresholds 6000
      (some snapshot)
      true).status
    ≡ healthy
unfolding inspect_pipeline_status
is_healthy = refl
