-- ===== src/Examples/Capture.antt =====
-- The theorems on network capture and the transport, on a concrete request and queue.
use spectro.Prelude.{
  ◌≡◌, refl, true, false, none, some, [], ◌∷◌, Text, text, text_eq, Option, subst, Bool,
}
use mathlib.Core.Option.{some-injective}
use spectro.Protocol.Event.{Envelope, fetch}
use spectro.Browser.Lifecycle.Pages.{UrlParts}
use spectro.Browser.Lifecycle.Sanitize.{PartsHaveNoQuery}
use spectro.Browser.Network.{
  NetworkObservation, NetworkOptions, NetworkCapture, counted, capture_request,
  sanitize_network_url, sanitize_network_method,
}
use spectro.Browser.Network.Laws.{IsCaptured, capture_request-IsCaptured}
use spectro.Browser.Transport.{Response}
use spectro.Core.Client.{FlushOptions, Client, waiting}
use spectro.Core.Client.Delivery.{initial}
use spectro.Core.Client.Flush.{FlushResult, start_flush}
use spectro.Examples.Samples.{setting}
use spectro.Examples.Samples.{two_entries}

abbrev api : UrlParts
api = record { origin = text "o"; protocol = text "https:"; pathname = text "/"; hash = [] }

abbrev parse_url : Text → Option Text → Option UrlParts
parse_url (c ∷ d ∷ e ∷ s) base = none
parse_url _ base = some api

api-keeps_apart : PartsHaveNoQuery api
api-keeps_apart = ((refl, tt), (refl, (refl, (refl, (refl, (refl, (refl, tt)))))), (refl, tt))

parse_url-keeps_apart :
    (raw : Text) (base : Option Text) (parts : UrlParts)
    → parse_url raw base ≡ some parts
    → PartsHaveNoQuery parts
parse_url-keeps_apart [] base parts h =
    subst PartsHaveNoQuery (some-injective api parts h) api-keeps_apart
parse_url-keeps_apart (c ∷ []) base parts h =
    subst PartsHaveNoQuery (some-injective api parts h) api-keeps_apart
parse_url-keeps_apart (c ∷ d ∷ []) base parts h =
    subst PartsHaveNoQuery (some-injective api parts h) api-keeps_apart
parse_url-keeps_apart (c ∷ d ∷ e ∷ s) base parts h = cc

abbrev same : Text → Text
same t = t

abbrev options : NetworkOptions
options = record { capture_fetch = none; capture_xhr = none; capture_resource_timing = none }

abbrev observed : NetworkObservation
observed = record {
  request_url = text "/?";
  navigation_url = none;
  method = text "GET";
  start = counted (text "1");
  duration = counted (text "2");
  initiator = fetch;
  status = none;
  success = false;
  failure_kind = none;
}

abbrev capture : NetworkCapture
capture = record {
  name = text "fetch_request";
  payload = record {
    method = text "GET";
    url = text "o/";
    status = none;
    start = text "1";
    duration = text "2";
    initiator = fetch;
    success = false;
  };
  navigation_url = none;
  immediate = false;
}

observed_run :
    capture_request parse_url same same (text "https://in/") options observed ≡ some capture
unfolding capture_request sanitize_network_url sanitize_network_method text_eq
observed_run = refl

capture_request-IsCaptured_example :
    IsCaptured parse_url same same parse_url-keeps_apart
      (text "https://in/")
      options
      observed
      capture
capture_request-IsCaptured_example =
    capture_request-IsCaptured parse_url same same parse_url-keeps_apart (text "https://in/")
      options observed capture observed_run

abbrev answers : Envelope → Bool → Option Response
answers e keepalive = some (record { is_ok = true; accepted = some 2 })

abbrev at_unload : FlushOptions
at_unload = record { keepalive = true; priority = none }

abbrev client : Client
client = record initial { queue = two_entries; flight = waiting at_unload }

abbrev flushing : Option FlushResult × Client
flushing = start_flush setting 1700000000000 at_unload client
