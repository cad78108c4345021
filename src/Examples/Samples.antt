-- ===== src/Examples/Samples.antt =====
-- Sample events, a queue of two entries and a client's setting.
use spectro.Prelude.{◌*◌, ◌+◌, true, none, some, [], ◌∷◌, text, length}
use spectro.Protocol.Json.{Fields}
use spectro.Protocol.Context.{EventContext}
use spectro.Protocol.Event.{
  SpectroEvent, ByteLength, of_custom, of_error, runtime, immediate, batch, QueuedEventRecord,
}
use spectro.Core.Normalize.{Heap, date}
use spectro.Core.Context.{no_context}
use spectro.Core.Queue.Defs.{EventQueue}
use spectro.Core.Client.{Setting}

abbrev pub context : EventContext
context = record {
  sdk = record { name = text "@spectro/browser"; version = text "0.1.0" };
  project = text "shop";
  environment = text "production";
  session = some (record { id = text "ses_1"; started_at = some 1000 });
  user = none;
  page = some (record {
    id = text "page_1";
    url = text "https://shop/";
    path = text "/";
    title = none;
    referrer = none;
  });
  device = none;
  browser = none;
  os = none;
  release = none;
  trace = none;
  tags = none;
}

abbrev pub click : SpectroEvent
click = record {
  id = text "evt_1";
  name = text "buy";
  timestamp = 5000;
  context = context;
  payload = of_custom Fields.end;
}

abbrev pub crash : SpectroEvent
crash = record {
  id = text "evt_2";
  name = text "error";
  timestamp = 6000;
  context = context;
  payload = of_error (record {
    mechanism = runtime;
    name = none;
    message = text "boom";
    stack = none;
    fingerprint = none;
    handled = true;
    source = none;
  });
}

-- Every event has 300 bytes, and an envelope 40 bytes more than its events.
abbrev pub bytes : ByteLength
bytes = record { event = λ e. 300; envelope = λ v. 40 + 300 * length v.items }

-- Every event has five million bytes.
abbrev pub huge : ByteLength
huge = record { event = λ e. 5000000; envelope = λ v. 5000000 * length v.items }

abbrev pub queued_click : QueuedEventRecord
queued_click = record { event = click; priority = batch; attempts = 0 }

abbrev pub queued_crash : QueuedEventRecord
queued_crash = record { event = crash; priority = immediate; attempts = 7 }

abbrev pub two_entries : EventQueue
two_entries = record {
  events =
      record { queued = queued_click; bytes = 300 }
      ∷ record { queued = queued_crash; bytes = 300 }
      ∷ [];
  bytes = 600;
}

abbrev pub heap : Heap
heap a = date

abbrev pub setting : Setting
setting = record {
  bytes = bytes;
  lower = λ s. s;
  heap = heap;
  validate = λ e. true;
  options = record {
    project_id = text "shop";
    environment = text "production";
    release = none;
    sdk = none;
    context = no_context;
  };
  durable = true;
}
