-- ===== src/Examples/Outbox.antt =====
-- The theorems on the browser's outbox, at a concrete store.
use spectro.Prelude.{List, [], ◌∷◌, text}
use spectro.Browser.Outbox.{StoredEvent, Limits}
use spectro.Examples.Samples.{bytes, queued_crash}

abbrev limits : Limits
limits = record { max_events = 100; max_bytes = 500; ttl_ms = 1000 }

abbrev store : List StoredEvent
store =
    record {
      queued = queued_crash;
      key = text "s:evt_2";
      scope = text "s";
      stored_at = 50;
      bytes = 300;
    }
    ∷ []
