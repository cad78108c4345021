-- ===== src/Examples/Client.antt =====
-- The theorems on the normalisation of values and on the client, at concrete inputs.
use spectro.Prelude.{text_eq, ◌≡◌, refl, false, none, some, [], ◌∷◌, arith, text}
use spectro.Protocol.Json.{Json, Fields}
use spectro.Protocol.Event.{immediate}
use spectro.Core.Normalize.{
  is_sensitive_property_key, includes, Value, Heap, obj, normalize, normalize_properties, ok,
  assign, assign_entries,
}
use spectro.Core.Normalize.Bounds.{IsBounded, normalize_properties-IsBounded}
use spectro.Core.Context.{no_context}
use spectro.Core.Queue.Evict.{IsValid}
use spectro.Core.Client.{
  FlushOptions, Client, idle, waiting, sending, CaptureInput, custom_input, capture,
}
use spectro.Core.Client.Capture.{Outcomes, capture_outcome}
use spectro.Core.Client.Flush.{flush, start_flush}
use spectro.Core.Client.Flush.Laws.{IsSound}
use spectro.Core.Client.Delivery.{
  captures, flushes, starts, here, next, capture-Idles, initial, Reach-initial-IsSound,
}
use spectro.Examples.Samples.{bytes, setting, queued_crash, two_entries}

-- An object whose first property is a text and whose second is the object itself.
abbrev loop : Heap
loop a = obj ((text "a", Value.str (text "b")) ∷ (text "me", Value.ref 0) ∷ [])

abbrev flat : Heap
flat a = obj ((text "a", Value.str (text "b")) ∷ (text "password", Value.null) ∷ [])

flat-properties :
    normalize_properties (λ s. s) flat (Value.ref 0)
    ≡ ok (Fields.field (text "a") (Json.str (text "b")) Fields.end)
unfolding normalize_properties normalize assign_entries assign is_sensitive_property_key includes
    text_eq
flat-properties = refl

normalize_properties-IsBounded_example :
    IsBounded 6 (Json.obj (Fields.field (text "a") (Json.str (text "b")) Fields.end))
normalize_properties-IsBounded_example =
    normalize_properties-IsBounded (λ s. s) flat (Value.ref 0)
      (Fields.field (text "a") (Json.str (text "b")) Fields.end) flat-properties

abbrev options : FlushOptions
options = record { keepalive = false; priority = none }

abbrev purchase : CaptureInput
purchase = record {
  name = text "buy";
  timestamp = none;
  context = no_context;
  payload = custom_input Value.null;
}

abbrev ready : Client
ready = record initial { queue = two_entries; flight = waiting options }

abbrev busy : Client
busy = record initial {
  queue = two_entries;
  flight = sending options (queued_crash ∷ []);
  follow_up = some options;
}

two_entries-IsValid : IsValid bytes two_entries
two_entries-IsValid = record {
  counted = refl;
  sized = (refl, (refl, tt));
  few = omega arith;
  small = omega arith;
}

ready-IsSound : IsSound setting ready
ready-IsSound = record { valid = two_entries-IsValid; small = tt; quiet = tt }

busy-IsSound : IsSound setting busy
busy-IsSound = record { valid = two_entries-IsValid; small = (omega arith, tt); quiet = tt }

capture_outcome_example :
    Outcomes setting
      (text "evt_9")
      9000
      purchase
      ready
      (capture setting (text "evt_9") 9000 purchase (some immediate) ready)
capture_outcome_example =
    capture_outcome setting (text "evt_9") 9000 purchase (some immediate) ready two_entries-IsValid

abbrev captured : Client
captured = (capture setting (text "evt_9") 9000 purchase none initial).1

flush_waiting : (c : Client) → c.flight ≡ idle → (flush options c).flight ≡ waiting options
unfolding flush
flush_waiting c h = ground arith

Reach-initial-IsSound_example :
    IsSound setting (start_flush setting 9000 options (flush options captured)).1
Reach-initial-IsSound_example =
    Reach-initial-IsSound setting (start_flush setting 9000 options (flush options captured)).1 (
      next
        (next (next here (captures initial (text "evt_9") 9000 purchase none))
          (flushes captured options))
        (starts (flush options captured) options 9000 (
          flush_waiting captured
            (capture-Idles setting (text "evt_9") 9000 purchase none initial).0)))
